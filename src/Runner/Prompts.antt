-- ===== src/Runner/Prompts.antt =====
-- internal/shared/runner/runner.go: the prompts of the retries.
use opencode_reviewer.Prelude.{◌++◌}
use opencode_reviewer.GoText.{Bytes, codes}

unfoldable pub schema_retry_prompt_for : Bytes → Bytes → Bytes → Bytes
schema_retry_prompt_for tool_name validation_err schema_hint =
    codes "You called `"
    ++ (tool_name
        ++ (codes "` but the arguments did not match the required schema.\nError: "
            ++ (validation_err
                ++ (codes "\nCall the tool again with the correct schema:\n" ++ schema_hint))))

unfoldable pub retry_prompt_for : Bytes → Bytes
retry_prompt_for tool_name =
    codes "STOP. Your previous response is invalid because you did not call the real `"
    ++ (tool_name
        ++ (codes "` tool.\n\nYour only valid next action is to call the actual `"
            ++ (tool_name
                ++ (codes
                      "` tool now with the complete result.\nDo not answer with text. Do not answer with JSON. Do not use Markdown. Do not explain. Do not say the tool was called. Do not simulate a tool call in prose or code.\n\nIf there are no findings or this review is out of scope, still call `"
                    ++ (tool_name
                        ++ codes
                            "` with an empty findings array. The review cannot continue until the real tool call is emitted.")))))

unfoldable pub json_fallback_prompt_for : Bytes → Bytes
json_fallback_prompt_for tool_name =
    codes "You failed to call the `"
    ++ (tool_name
        ++ (codes
              "` tool. Respond with ONLY one valid raw JSON object using the exact same schema as the `"
            ++ (tool_name
                ++ codes
                    "` tool arguments. Do not wrap it in markdown fences. Do not add prose before or after it. Do not say the tool was called. Empty findings must be represented as an empty array: \"findings\": [].")))

abbrev pub continuation_prompt : Bytes
continuation_prompt =
    codes
      "Continue from the current session state and finish the task. If the previous attempt was interrupted by a transient internal error, recover and proceed normally."
