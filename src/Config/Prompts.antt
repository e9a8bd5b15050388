-- ===== src/Config/Prompts.antt =====
-- internal/review/promptref, promptconfig, agentconfig and finalizerconfig: the messages of the
-- reviewer, with their references, and the prompts of the two agents.
use opencode_reviewer.Prelude.{
  ℕ, suc, Bool, not, ◌&&◌, ◌||◌, List, [], ◌∷◌, ◌++◌, Option, none, some, if◌then◌else◌, Result, ok,
  ◌>>=◌, wrap_err,
}
use opencode_reviewer.GoText.{
  Bytes, codes, bytes_eq, is_empty, base, ext, clean, is_abs, join_paths, rel, trim_space,
  trim_suffix, show_nat,
}
use opencode_reviewer.Models.{ReviewMessage, ReviewMessageRef}
use opencode_reviewer.Config.System.{System, ConfigErr, wrapped, working_directory, read_prompt}
use opencode_reviewer.Config.Env.{resolve_with_options}
use opencode_reviewer.Config.Subagents.{Options, split_paths}

-- `hash` is the hexadecimal SHA-256 of a text.
module _ (hash : Bytes → Bytes) where
  unfoldable pub from_content : Bytes → Bytes → ReviewMessageRef
  from_content id content = record { id = id; path = []; sha256 = hash content }

  unfoldable pub ref_path : Bytes → Bytes → Bytes
  unfolding clean rel
  ref_path path ref_base_dir =
      if is_empty ref_base_dir
      then clean path
      else elim (rel ref_base_dir path) [ none ↦ clean path | some r ↦ clean r ]

  -- The loop over the inline messages, from the number of the next one.
  unfoldable pub inline_messages : ℕ → List Bytes → List ReviewMessage
  unfolding from_content show_nat
  inline_messages n [] = []
  inline_messages n (content ∷ contents) =
      record { ref = from_content (codes "inline-" ++ show_nat n) content; content = content }
      ∷ inline_messages (suc n) contents

  unfoldable pub file_message : Bytes → Bytes → Bytes → ReviewMessage
  unfolding ref_path base ext trim_suffix
  file_message path ref_base_dir content = record {
    ref = record {
      id = trim_suffix (base path) (ext path);
      path = ref_path path ref_base_dir;
      sha256 = hash content;
    };
    content = content;
  }

  module _ (sys : System) where
    -- The loop over the paths.
    unfoldable pub read_messages :
        Bytes → Bytes → List Bytes → Result ConfigErr (List ReviewMessage)
    unfolding file_message is_abs join_paths clean
    read_messages base_dir ref_base_dir [] = ok []
    read_messages base_dir ref_base_dir (p ∷ ps) =
        let path = if is_abs p then p else join_paths base_dir p in
        wrap_err (read_prompt path) (sys.read_file (clean path)) >>= λ content.
        read_messages base_dir ref_base_dir ps >>= λ messages.
        ok (file_message path ref_base_dir content ∷ messages)

    unfoldable pub load_review_messages_with_ref_base :
        Bytes → Bytes → List Bytes → List Bytes → Result ConfigErr (List ReviewMessage)
    unfolding inline_messages read_messages
    load_review_messages_with_ref_base base_dir ref_base_dir paths inline =
        if not (is_empty inline)
        then ok (inline_messages 1 inline)
        else read_messages base_dir ref_base_dir paths

    -- The messages that the variable names, relative to the working directory.
    unfoldable pub messages_of_env : Bytes → Result ConfigErr (List ReviewMessage)
    unfolding load_review_messages_with_ref_base split_paths
    messages_of_env raw = wrap_err working_directory sys.getwd >>= λ cwd.
        load_review_messages_with_ref_base cwd cwd (split_paths raw) []

    -- `LoadReviewMessagesWithRefBaseAndOptions`; the empty list stands for nil too.
    unfoldable pub load_review_messages :
        Bytes → Bytes → List Bytes → List Bytes → Options → Result ConfigErr (List ReviewMessage)
    unfolding messages_of_env load_review_messages_with_ref_base
    load_review_messages config_dir ref_base_dir toml_paths toml_inline opts =
        let raw = sys.getenv (codes "OR_MESSAGE_PATHS") in
        let last : Result ConfigErr (List ReviewMessage) =
          if (opts.use_legacy_env && opts.legacy_env_fallback) && not (is_empty raw)
          then messages_of_env raw
          else ok [] in
        let middle : Result ConfigErr (List ReviewMessage) =
          if not (is_empty toml_inline)
          then load_review_messages_with_ref_base config_dir ref_base_dir [] toml_inline
          else if not (is_empty toml_paths)
          then load_review_messages_with_ref_base config_dir ref_base_dir toml_paths []
          else last in
        if (opts.use_legacy_env && not opts.legacy_env_fallback) && not (is_empty raw)
        then messages_of_env raw
        else middle

-- A field that the reference leaves empty matches every value.
abbrev field_matches : Bytes → Bytes → Bool
field_matches wanted got = is_empty wanted || bytes_eq got wanted

unfoldable pub ref_matches : ReviewMessageRef → ReviewMessageRef → Bool
unfolding bytes_eq
ref_matches wanted got =
    field_matches wanted.id got.id
    && (field_matches wanted.path got.path && field_matches wanted.sha256 got.sha256)

unfoldable pub match_exact : List ReviewMessage → ReviewMessageRef → Option ReviewMessage
unfolding ref_matches
match_exact [] ref = none
match_exact (m ∷ ms) ref =
    let rest = match_exact ms ref in if ref_matches ref m.ref then some m else rest

-- `LoadWithOptions` of the agent's and the finalizer's prompt, and of the finalizer's message, which
-- differ in the variable, the text of an error and the default.
unfoldable pub load_prompt :
    System → Bytes → Bytes → Bytes → Bytes → Bytes → Options → Result ConfigErr Bytes
unfolding resolve_with_options trim_space
load_prompt sys key label default_prompt config_path inline_prompt opts =
    wrap_err (wrapped label) (
      resolve_with_options sys key inline_prompt config_path
        (record { use_env = opts.use_legacy_env; env_fallback = opts.legacy_env_fallback }))
    >>= λ text. ok (if is_empty (trim_space text) then default_prompt else text)
