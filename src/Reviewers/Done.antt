-- ===== src/Reviewers/Done.antt =====
-- When CodeRabbit is reported to be done (`coderabbit_state` of sidecar/status.py).
use fuko_pr.Prelude.{
  String, ◌≡◌, ◌⊎◌, inl, inr, refl, sym, ap, ◌∙◌, Bool, true, false, not, ◌&&◌, ◌||◌, Option, none,
  some, List, arith, ◌==◌, ==_iff, text_eq, if◌then◌else◌, if-both, Bool-cases, Option-cases,
}
use mathlib.Core.Bool.{false≢true}
use fuko_pr.Reviewers.Rows.{State, done, no_activity, Row, Review}
use fuko_pr.Reviewers.Coderabbit.{
  Patterns, CheckRun, cr_row, coderabbit_check, demotion, unfinished, or_row, walk_on_head,
  review_on_head, marker_on_head, content_on_head, notice_blob, checked_row, unchecked_row,
  coderabbit_state,
}

abbrev is_done : State → Bool
is_done done = true
is_done state = false

-- No notice in the text says that the window is closed or a scan is under way.
abbrev pub IsQuiet : Patterns → String → Type 0
IsQuiet p blob =
    (p.rate_limit_mark blob ≡ false)
    × (p.pause_mark blob ≡ false)
    × (p.says_in_progress blob ≡ false)

demoted_done :
    (p : Patterns) (blob : String) (head : Option String) (content : Bool) (row : Row)
    → is_done (or_row p (demotion p blob head content) row).state ≡ true
    → (content ≡ true) ⊎ IsQuiet p blob
unfolding demotion
demoted_done p blob head true row h = inl refl
demoted_done p blob head false row h = elim (Bool-cases (p.rate_limit_mark blob)) [
  | inl limited ↦ cc (rw limited at h)
  | inr unlimited ↦ elim (Bool-cases (p.pause_mark blob)) [
    | inl stopped ↦ cc (rw (unlimited, stopped) at h)
    | inr going ↦ elim (Bool-cases (p.says_in_progress blob)) [
      | inl scanning ↦ cc (rw (unlimited, going, scanning) at h)
      | inr idle ↦ inr (unlimited, going, idle)
    ]
  ]
]

demoted_content :
    (p : Patterns) (blob : String) (head : Option String) (content : Bool) (row : Row)
    → row.with_content ≡ some content
    → (or_row p (demotion p blob head content) row).with_content ≡ some content
unfolding demotion
demoted_content p blob head true row h = h
demoted_content p blob head false row h = elim (Bool-cases (p.rate_limit_mark blob)) [
  | inl limited ↦ rw limited refl
  | inr unlimited ↦ elim (Bool-cases (p.pause_mark blob)) [
    | inl stopped ↦ rw (unlimited, stopped) refl
    | inr going ↦ elim (Bool-cases (p.says_in_progress blob)) [
      | inl scanning ↦ rw (unlimited, going, scanning) refl
      | inr idle ↦ rw (unlimited, going, idle) h
    ]
  ]
]

module _ (p : Patterns) (lower : String → String) (head_sha : String)
    (issue_comments reviews : List Review) where
  abbrev content : Bool
  content = content_on_head p lower head_sha issue_comments reviews

  -- CodeRabbit left content on the head, or its live notices are quiet.
  abbrev pub IsTrusted : Type 0
  IsTrusted =
      (content_on_head p lower head_sha issue_comments reviews ≡ true)
      ⊎ IsQuiet p (notice_blob p lower head_sha issue_comments reviews)

  -- What completes a read of the head: a completed check-run, or without a check-run a review or a
  -- terminal marker on the head.
  abbrev pub IsCompleted : List CheckRun → Type 0
  IsCompleted check_runs =
      ((check : CheckRun) × (coderabbit_check p check_runs ≡ some check)
        × (lower check.status ≡ "completed"))
      ⊎ ((coderabbit_check p check_runs ≡ none)
          × ((review_on_head p lower head_sha issue_comments reviews
                || marker_on_head p lower head_sha issue_comments reviews)
              ≡ true))

  checked_done :
      (check : CheckRun)
      → is_done (checked_row p lower head_sha issue_comments reviews check).state ≡ true
      → IsTrusted × (lower check.status ≡ "completed")
  unfolding checked_row
  checked_done check h = elim (Bool-cases (lower check.status == "completed")) [
    | inl completed ↦ (
      demoted_done p (notice_blob p lower head_sha issue_comments reviews) (some head_sha) content _
          (rw (completed, checked_row) at h),
      (==_iff (lower check.status) "completed").0 completed,
    )
    | inr running ↦ cc (rw (running, checked_row) at h)
  ]

  unfinished_done :
      (blob : String) (head : Option String) (a b c d : String) (verdict : Bool)
      → is_done (unfinished p blob head a b c d verdict).state ≡ false
  unfinished_done blob head a b c d verdict =
      let other = λ (r : Row). is_done r.state ≡ false in
      if-both other (p.says_rate_limit blob) _ _ (λ limited. refl)
        (λ unlimited.
          if-both other (p.says_paused blob) _ _ (λ stopped. refl)
            (λ going.
              if-both other (p.says_in_progress blob) _ _ (λ scanning. refl) (λ waiting. refl)))

  unchecked_done :
      is_done (unchecked_row p lower head_sha issue_comments reviews).state ≡ true
      → IsTrusted
        × ((review_on_head p lower head_sha issue_comments reviews
              || marker_on_head p lower head_sha issue_comments reviews)
            ≡ true)
  unfolding unchecked_row
  unchecked_done =
      let walk = walk_on_head p lower head_sha issue_comments reviews in
      let review = review_on_head p lower head_sha issue_comments reviews in
      let marker = marker_on_head p lower head_sha issue_comments reviews in
      let P = λ (r : Row). is_done r.state ≡ true → IsTrusted × ((review || marker) ≡ true) in
      if-both P (not (walk || review)) _ _
        (λ elsewhere h. absurd (false≢true (sym (unfinished_done _ _ _ _ _ _ _) ∙ h)))
        (λ here.
          if-both P (not review && not marker) _ _
            (λ unmarked h. absurd (false≢true (sym (unfinished_done _ _ _ _ _ _ _) ∙ h)))
            (λ read h. (
              demoted_done p (notice_blob p lower head_sha issue_comments reviews) _ content _ h,
              ground (arith, read),
            )))

  active_done :
      (active : Bool)
      → is_done
          (if active
            then unchecked_row p lower head_sha issue_comments reviews
            else cr_row no_activity none "no CodeRabbit activity" false).state
        ≡ true
      → IsTrusted
        × ((review_on_head p lower head_sha issue_comments reviews
              || marker_on_head p lower head_sha issue_comments reviews)
            ≡ true)
  active_done true h = unchecked_done h
  active_done false h = absurd (false≢true h)

  -- CodeRabbit is done on a head only when a completed check-run of it is there or, without one, a
  -- review or a terminal marker on the head, and when it left content on the head or its live notices
  -- tell of no limit, no pause and no scan.
  pub coderabbit_state-IsTrusted :
      (check_runs : List CheckRun)
      → (coderabbit_state p lower head_sha issue_comments reviews check_runs).state ≡ done
      → IsTrusted × IsCompleted check_runs
  unfolding coderabbit_state
  coderabbit_state-IsTrusted check_runs h =
      let d = ap is_done h in
      elim (Option-cases (coderabbit_check p check_runs)) [
        | inl unchecked ↦
            let (trusted, completed) = active_done _ (rw (unchecked, coderabbit_state) at d) in
            (trusted, inr (unchecked, completed))
        | inr (check, found) ↦
            let (trusted, completed) = checked_done check (rw (found, coderabbit_state) at d) in
            (trusted, inl (check, found, completed))
      ]
