-- ===== src/Reviewers/Coderabbit.antt =====
-- sidecar/status.py, `coderabbit_state`. What each pattern finds in a text is a field of `Patterns`, a
-- parameter, as is `str.lower`.
use fuko_pr.Prelude.{
  String, ◌<+>◌, Bool, true, false, not, ◌&&◌, ◌||◌, Option, none, some, List, [], ◌∷◌, ◌++◌, map,
  any, filterb, ◌==◌, text_eq, if◌then◌else◌, has_text, join_lines,
}
use fuko_pr.Reviewers.Rows.{
  State, done, pending, in_progress, rate_limited, paused, no_activity, Row, Review, is_on,
  sha_match,
}

-- `search` of each pattern; the first group of the recent review; the second group of every range.
pub record Patterns : Type 0 where
  pub says_in_progress : String → Bool
  pub says_rate_limit : String → Bool
  pub says_paused : String → Bool
  pub rate_limit_mark : String → Bool
  pub pause_mark : String → Bool
  pub done_zero : String → Bool
  pub done_marker : String → Bool
  pub recent_review : String → Option String
  pub range_heads : String → List String
  pub is_summary : String → Bool
  pub check_name : String → Bool

pub record CheckRun : Type 0 where
  pub name : String
  pub slug : String
  pub status : String
  pub conclusion : String

-- `_cr_row`
abbrev pub cr_row : State → Option String → String → Bool → Row
cr_row state head detail content = record {
  backend = "coderabbit";
  state = state;
  head_reviewed = head;
  detail = detail;
  with_content = some content;
}

abbrev last_text : List String → Option String
last_text [] = none
last_text (t ∷ []) = some t
last_text (t ∷ u ∷ ts) = last_text (u ∷ ts)

-- `next((h for h in heads if ...), default)`
unfoldable pub first_match : String → List String → Option String → Option String
unfolding sha_match
first_match head [] otherwise = otherwise
first_match head (h ∷ hs) otherwise =
    let rest = first_match head hs otherwise in if sha_match h head then some h else rest

abbrev pub is_coderabbit : (String → String) → Review → Bool
is_coderabbit lower r = lower r.login == "coderabbitai[bot]"

abbrev pub texts : List Review → List String
texts = map (λ (r : Review). r.body)

module _ (p : Patterns) where
  -- `_coderabbit_check`
  unfoldable pub coderabbit_check : List CheckRun → Option CheckRun
  coderabbit_check [] = none
  coderabbit_check (c ∷ cs) =
      let later = coderabbit_check cs in
      if p.check_name c.name || p.check_name c.slug then some c else later

  -- `any(_sha_match(h, head_sha) for h in _range_heads(body))`
  abbrev pub names_head : String → String → Bool
  names_head head body = any (λ h. sha_match h head) (p.range_heads body)

  -- `_cr_is_notice_body`
  abbrev pub is_notice_body : String → Bool
  is_notice_body body = p.rate_limit_mark body || p.pause_mark body

  -- `_cr_marker_covers_head`
  unfoldable pub marker_covers_head : String → String → Bool
  marker_covers_head head body = elim (p.recent_review body) [
    | none ↦ p.done_marker body && not (is_notice_body body)
    | some inner ↦ p.done_marker inner && names_head head inner
  ]

  -- `_cr_demotion`
  unfoldable pub demotion : String → Option String → Bool → Option Row
  demotion notice_blob head content =
      if content
      then none
      else if p.rate_limit_mark notice_blob
      then some (
          cr_row rate_limited head
            "CR signalled completion on HEAD but its live summary still carries a limit notice and nothing on HEAD carries review content"
            content)
      else if p.pause_mark notice_blob
      then some (
          cr_row paused head
            "CR signalled completion on HEAD but its live summary still carries a pause notice and nothing on HEAD carries review content"
            content)
      else if p.says_in_progress notice_blob
      then some (
          cr_row in_progress head
            "CR signalled completion on HEAD but its live summary still reports an active scan and nothing on HEAD carries review content"
            content)
      else none

  -- The row of a review that is not completed, from the live notices, with the details of the branch.
  abbrev pub unfinished : String → Option String → String → String → String → String → Bool → Row
  unfinished blob head limited stopped scanning waiting content =
      if p.says_rate_limit blob
      then cr_row rate_limited head limited content
      else if p.says_paused blob
      then cr_row paused head stopped content
      else if p.says_in_progress blob
      then cr_row in_progress head scanning content
      else cr_row pending head waiting content

  abbrev pub or_row : Option Row → Row → Row
  or_row none row = row
  or_row (some demoted) row = demoted

module _ (p : Patterns) (lower : String → String) (head_sha : String)
    (issue_comments reviews : List Review) where
  abbrev pub cr_issue_bodies : List String
  cr_issue_bodies = texts (filterb (is_coderabbit lower) issue_comments)

  abbrev pub cr_reviews : List Review
  cr_reviews = filterb (is_coderabbit lower) reviews

  abbrev pub bodies : List String
  bodies = cr_issue_bodies ++ texts cr_reviews

  unfoldable pub issue_blob : String
  unfolding join_lines
  issue_blob = join_lines cr_issue_bodies

  -- `[h for b in bodies for h in _range_heads(b)]`
  abbrev pub heads_of : List String → List String
  heads_of [] = []
  heads_of (b ∷ bs) = p.range_heads b ++ heads_of bs

  unfoldable pub walk_on_head : Bool
  unfolding sha_match
  walk_on_head = any (λ h. sha_match h head_sha) (heads_of bodies)

  unfoldable pub walk_head : Option String
  unfolding first_match
  walk_head = first_match head_sha (heads_of bodies) (last_text (heads_of bodies))

  unfoldable pub review_on_head : Bool
  review_on_head = any (is_on head_sha) cr_reviews

  unfoldable pub head_bodies : List String
  unfolding review_on_head
  head_bodies =
      filterb (names_head p head_sha) bodies
      ++ (texts (filterb (is_on head_sha) cr_reviews)
          ++ (if review_on_head then filterb p.is_summary cr_issue_bodies else []))

  unfoldable pub marker_on_head : Bool
  unfolding head_bodies marker_covers_head
  marker_on_head = any (marker_covers_head p head_sha) head_bodies

  unfoldable pub body_on_head : Bool
  body_on_head =
      any (λ (r : Review). is_on head_sha r && (not (is_notice_body p r.body) && has_text r.body))
        cr_reviews

  unfoldable pub content_on_head : Bool
  unfolding marker_on_head body_on_head
  content_on_head = marker_on_head || body_on_head

  unfoldable pub notice_blob : String
  unfolding issue_blob join_lines
  notice_blob =
      let summary = join_lines (filterb p.is_summary cr_issue_bodies) in
      if summary == "" then issue_blob else summary

  -- With a check-run on the head.
  unfoldable pub checked_row : CheckRun → Row
  unfolding content_on_head notice_blob demotion join_lines
  checked_row check =
      let status = lower check.status in
      let conclusion = lower check.conclusion in
      if not (status == "completed")
      then cr_row in_progress (some head_sha)
          ("check-run still " <+> (if status == "" then "pending" else status)) content_on_head
      else or_row p (demotion p notice_blob (some head_sha) content_on_head) (
          cr_row done (some head_sha)
            (if p.done_zero (join_lines bodies)
              then "no actionable comments"
              else "check-run completed ("
                <+> ((if conclusion == "" then "neutral" else conclusion) <+> ")"))
            content_on_head)

  -- With none.
  unfoldable pub unchecked_row : Row
  unfolding content_on_head notice_blob demotion walk_on_head walk_head
  unchecked_row =
      let head_reviewed = if walk_on_head then walk_head else some head_sha in
      if not (walk_on_head || review_on_head)
      then unfinished p issue_blob walk_head "rate-limit notice; HEAD not yet scanned"
          "reviews paused; HEAD not yet scanned" "review in progress"
          "neither walkthrough nor review covers the HEAD" content_on_head
      else if not review_on_head && not marker_on_head
      then unfinished p issue_blob (some head_sha)
          "rate-limit notice on this PR and HEAD not yet completed"
          "reviews paused and HEAD not yet completed"
          "review in progress (CR named HEAD and reports an active scan)"
          "walkthrough range line covers HEAD but CR shows no completion marker, submitted review, or in-progress check-run yet"
          content_on_head
      else or_row p (demotion p notice_blob head_reviewed content_on_head) (
          cr_row done head_reviewed
            (if p.done_zero (join_lines head_bodies)
              then "no actionable comments"
              else "scanned HEAD (any findings are inline)")
            content_on_head)

  -- `coderabbit_state`
  unfoldable pub coderabbit_state : List CheckRun → Row
  unfolding coderabbit_check checked_row unchecked_row
  coderabbit_state check_runs = elim (coderabbit_check p check_runs) [
    | some check ↦ checked_row check
    | none ↦
        if any (λ b. true) bodies || any (λ (r : Review). true) cr_reviews
        then unchecked_row
        else cr_row no_activity none "no CodeRabbit activity" false
  ]
