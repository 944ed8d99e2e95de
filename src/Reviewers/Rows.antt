-- ===== src/Reviewers/Rows.antt =====
-- sidecar/status.py, the rows that it reports, `copilot_state` and `escalation_needed`. What the
-- patterns find in a text is a parameter, and so is `str.lower`.
use fuko_pr.Prelude.{
  min, String, ◌<+>◌, Bool, true, false, not, ◌&&◌, ◌||◌, Option, none, some, List, [], ◌∷◌, ◌++◌,
  map, any, filterb, ◌==◌, text_eq, if◌then◌else◌, take_text, text_length,
}

-- `State`
pub data State : Type 0 where
  done degraded pending in_progress rate_limited paused unavailable superseded no_activity : State

-- `DEGRADED_STATES`
abbrev pub is_degraded : State → Bool
is_degraded rate_limited = true
is_degraded paused = true
is_degraded unavailable = true
is_degraded degraded = true
is_degraded state = false

-- `_row`, and `_cr_row` with its verdict.
pub record Row : Type 0 where
  pub backend : String
  pub state : State
  pub head_reviewed : Option String
  pub detail : String
  pub with_content : Option Bool

-- A comment or a review, as GitHub answers it: missing texts are empty, and the state of a review is
-- as it is printed.
pub record Review : Type 0 where
  pub login : String
  pub body : String
  pub commit_id : Option String
  pub review_state : String

-- `r.get("commit_id") == head_sha`
abbrev pub is_on : String → Review → Bool
is_on head r = elim r.commit_id [ none ↦ false | some commit ↦ commit == head ]

-- `_sha_match`, of two texts: the shorter is the beginning of the longer, and none is empty.
unfoldable pub sha_match : String → String → Bool
unfolding take_text
sha_match a b =
    let n = min (text_length a) (text_length b) in
    not (a == "") && (not (b == "") && (take_text n a == take_text n b))

abbrev pub last_of : List Review → Option Review
last_of [] = none
last_of (r ∷ []) = some r
last_of (r ∷ s ∷ rs) = last_of (s ∷ rs)

abbrev commit_of_last : List Review → Option String
commit_of_last rs = elim (last_of rs) [ none ↦ none | some r ↦ r.commit_id ]

abbrev state_of_last : List Review → String
state_of_last rs = elim (last_of rs) [ none ↦ "" | some r ↦ r.review_state ]

-- `_COPILOT_LOGINS`
abbrev is_copilot : String → Bool
is_copilot login = (login == "copilot") || (login == "copilot-pull-request-reviewer[bot]")

abbrev copilot_row : State → Option String → String → Row
copilot_row state head detail = record {
  backend = "copilot";
  state = state;
  head_reviewed = head;
  detail = detail;
  with_content = none;
}

-- `copilot_state`; `says_quota` is `_COPILOT_QUOTA.search`.
unfoldable pub copilot_state :
    (String → String) → (String → Bool) → String → List Review → List Review → Row
copilot_state lower says_quota head_sha reviews issue_comments =
    let by_copilot = λ (r : Review). is_copilot (lower r.login) in
    let cps = filterb by_copilot reviews in
    let on_head = filterb (is_on head_sha) cps in
    let bodies = map (λ (r : Review). r.body) (cps ++ filterb by_copilot issue_comments) in
    if any (λ (r : Review). true) on_head
    then copilot_row done (some head_sha) ("review on HEAD (" <+> (state_of_last on_head <+> ")"))
    else if any says_quota bodies
    then copilot_row unavailable (commit_of_last cps)
        "quota/unable-to-review notice on this PR and no review on HEAD"
    else if any (λ (r : Review). true) cps
    then copilot_row pending (commit_of_last cps) "latest Copilot review is on an older commit"
    else copilot_row no_activity none "no Copilot review"

-- `escalation_needed`
unfoldable pub escalation_needed : List Row → Bool
escalation_needed = any (λ row. is_degraded row.state)
