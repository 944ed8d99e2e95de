-- ===== src/Reviewers/Examples.antt =====
-- The results of Reviewers at a throttled and a finished review.
use fuko_pr.Prelude.{
  String, ◌≡◌, refl, true, none, some, [], ◌∷◌, text_eq, starts_with, join_lines, take_text, map,
  List, false, strip, put, sort, All,
}
use fuko_pr.Reviewers.Receipts.{
  RunReceipt, finished, FukoRow, configured_of, accepted_receipts, fuko_states,
}
use fuko_pr.Reviewers.Coverage.{IsCovered, fuko_states-IsCovered}
use fuko_pr.Reviewers.Rows.{superseded, done, rate_limited, Review, sha_match}
use fuko_pr.Reviewers.Coderabbit.{Patterns, CheckRun, coderabbit_state}
use fuko_pr.Reviewers.Done.{IsTrusted, IsCompleted, coderabbit_state-IsTrusted}

-- A notice and a result are what their first word says, and a range is the rest of a text.
abbrev patterns : Patterns
patterns = record {
  says_in_progress = starts_with "scan";
  says_rate_limit = starts_with "limit";
  says_paused = starts_with "pause";
  rate_limit_mark = starts_with "limit";
  pause_mark = starts_with "pause";
  done_zero = starts_with "none";
  done_marker = starts_with "posted";
  recent_review = λ body. none;
  range_heads = λ body. [];
  is_summary = λ body. true;
  check_name = starts_with "CodeRabbit";
}

abbrev said : String → Review
said body = record {
  login = "coderabbitai[bot]";
  body = body;
  commit_id = some "abc1234";
  review_state = "COMMENTED";
}

abbrev completed : CheckRun
completed = record { name = "CodeRabbit"; slug = ""; status = "completed"; conclusion = "success" }

-- A check-run that completes under a limit notice is no review.
throttled :
    (coderabbit_state patterns
      (λ t. t)
      "abc1234"
      (said "limit reached" ∷ [])
      []
      (completed ∷ [])).state
    ≡ rate_limited
unfolding coderabbit_state starts_with join_lines
throttled = refl

read_head :
    (coderabbit_state patterns
      (λ t. t)
      "abc1234"
      (said "limit reached" ∷ [])
      (said "posted 2" ∷ [])
      (completed ∷ [])).state
    ≡ done
unfolding coderabbit_state starts_with join_lines
read_head = refl

abbreviated : sha_match "abc1234" "abc1234def" ≡ true
unfolding sha_match take_text
abbreviated = refl

coderabbit_state-IsTrusted_example :
    IsTrusted patterns (λ t. t) "abc1234" (said "limit reached" ∷ []) (said "posted 2" ∷ [])
    × IsCompleted patterns
        (λ t. t)
        "abc1234"
        (said "limit reached" ∷ [])
        (said "posted 2" ∷ [])
        (completed ∷ [])
coderabbit_state-IsTrusted_example =
    coderabbit_state-IsTrusted patterns (λ t. t) "abc1234" (said "limit reached" ∷ [])
      (said "posted 2" ∷ []) (completed ∷ []) read_head

-- Two receipts of one seat: the later one, of the head, counts.
abbrev receipts : String → List RunReceipt
receipts body =
    record {
      label = "anthropic/opus";
      role = "active";
      promoted = false;
      head_sha = body;
      run_state = finished;
      model = "anthropic/opus";
      driver = "pr-agent";
      detail = "";
      channels = ("review", "done") ∷ [];
    }
    ∷ []

abbrev comments : List Review
comments = said "0ld1234" ∷ said "abc1234" ∷ []

covered_row :
    map
      (λ (r : FukoRow). r.row.state)
      (fuko_states
        (λ login. true)
        (λ t. t)
        receipts
        "abc1234"
        comments
        none
        (some ("anthropic/opus" ∷ [])))
    ≡ done ∷ []
unfolding fuko_states sha_match take_text strip put sort
covered_row = refl

-- A seat that is no longer configured holds nothing up.
retired_row :
    map
      (λ (r : FukoRow). r.row.state)
      (fuko_states (λ login. true) (λ t. t) receipts "abc1234" comments none (some ("x/y" ∷ [])))
    ≡ superseded ∷ []
unfolding fuko_states sha_match take_text strip put sort
retired_row = refl

fuko_states-IsCovered_example :
    All
      (IsCovered "abc1234"
        (configured_of (some ("anthropic/opus" ∷ [])))
        (accepted_receipts (λ login. true) (λ t. t) receipts none comments))
      (fuko_states
        (λ login. true)
        (λ t. t)
        receipts
        "abc1234"
        comments
        none
        (some ("anthropic/opus" ∷ [])))
fuko_states-IsCovered_example =
    fuko_states-IsCovered (λ login. true) (λ t. t) receipts "abc1234" comments none
      (some ("anthropic/opus" ∷ []))
