-- ===== src/Warrior/Filter.antt =====
-- internal/commentwarrior/pipeline.go: the discussions that a run works on, and the prompts.
pub mod Chosen
use opencode_reviewer.Prelude.{
  ℕ, zero, suc, ◌+◌, Bool, true, false, not, ◌&&◌, ◌||◌, List, [], ◌∷◌, ◌++◌, if◌then◌else◌, leb,
  ltb,
}
use opencode_reviewer.GoText.{Bytes, codes, bytes_eq, is_empty, join}
use opencode_reviewer.GoInt.{ℤ, pos, negsuc}
use opencode_reviewer.Gitlab.Types.{Discussion}
use opencode_reviewer.Vcs.Marker.{Json}
use opencode_reviewer.Warrior.Classifier.{
  Classification, ignore, ai_finding, human_mention_ai, classify_discussion,
  should_process_discussion,
}

pub record PipelineConfig : Type 0 where
  pub project_dir : Bytes
  pub branch : Bytes
  pub base_branch : Bytes
  pub mr_iid : ℤ
  pub dry_run : Bool
  pub max_discussions : ℤ
  pub discussion_id : Bytes

pub record ProcessableDiscussion : Type 0 where
  pub discussion : Discussion
  pub classification : Classification

-- `max > 0 && n >= max`
abbrev pub limit_reached : ℤ → ℕ → Bool
limit_reached (pos m) n = ltb 0 m && leb m n
limit_reached (negsuc m) n = false

module _ (unicode : Bytes → Bytes) (json : Json) (cfg : PipelineConfig) where
  -- The loop, when `n` discussions are chosen already.
  unfoldable pub filter_from : ℕ → List Discussion → ℤ → List ProcessableDiscussion
  unfolding classify_discussion should_process_discussion bytes_eq
  filter_from n [] bot = []
  filter_from n (d ∷ ds) bot =
      let skipped = filter_from n ds bot in
      let counted = filter_from (suc n) ds bot in
      let classification = classify_discussion unicode json d bot in
      if not (is_empty cfg.discussion_id) && not (bytes_eq d.id cfg.discussion_id)
      then skipped
      else if limit_reached cfg.max_discussions n
      then []
      else if not (should_process_discussion unicode json classification d bot)
      then skipped
      else record { discussion = d; classification = classification } ∷ counted

  unfoldable pub filter_processable_discussions : List Discussion → ℤ → List ProcessableDiscussion
  unfolding filter_from
  filter_processable_discussions discussions bot = filter_from 0 discussions bot

unfoldable pub message_for_classification : Bytes → Bytes → Classification → Bytes
message_for_classification mention finding human_mention_ai = mention
message_for_classification mention finding _ = finding

unfoldable pub build_prompt : Bytes → Bytes → Bytes → Bytes
unfolding join
build_prompt message source_prompt task = join (codes "\n\n") (
    message
    ∷ (if is_empty source_prompt
        then task ∷ []
        else codes
            "A <source_review_prompt> block is attached below. Use it as context for the review rules that produced the original AI finding."
          ∷ task
          ∷ []))

unfoldable pub message_kind : Classification → Bytes
message_kind human_mention_ai = codes "mention"
message_kind _ = codes "finding"
