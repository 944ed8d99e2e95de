-- ===== src/Reviewers/Receipts.antt =====
-- sidecar/status.py, fuko's own rows: `receipt_is_valid`, `fuko_states` and `reviewer_states`. Whose
-- receipts count by the pattern, the receipts that a comment carries, and `str.lower` are parameters.
use fuko_pr.Prelude.{
  String, ◌<+>◌, Bool, true, false, not, ◌&&◌, Option, none, some, List, [], ◌∷◌, ◌++◌, map, any,
  filterb, elem, ◌==◌, text_eq, if◌then◌else◌, strip, take_text, put, sort,
}
use Prim.Native.Nat.{Ordering}
use Prim.Native.String.{compare}
use fuko_pr.Reviewers.Rows.{
  State, done, degraded, pending, in_progress, unavailable, superseded, Row, Review, sha_match,
  copilot_state,
}
use fuko_pr.Reviewers.Coderabbit.{Patterns, CheckRun, coderabbit_state}

-- `RunState`
pub data RunState : Type 0 where
  started finished failed : RunState

-- `RunReceipt`, the fields that are read here.
pub record RunReceipt : Type 0 where
  pub label : String
  pub role : String
  pub promoted : Bool
  pub head_sha : String
  pub run_state : RunState
  pub model : String
  pub driver : String
  pub detail : String
  pub channels : List (String × String)

abbrev pub is_finished : RunState → Bool
is_finished finished = true
is_finished state = false

-- `receipt_is_valid`
unfoldable pub receipt_is_valid : RunReceipt → Bool
receipt_is_valid r = is_finished r.run_state && (not (r.model == "") && (r.model == r.label))

-- A row with the further keys of `fuko_states`.
pub record FukoRow : Type 0 where
  pub row : Row
  pub seat_role : String
  pub valid : Bool
  pub seat : String
  pub answered : String
  pub review_backend : String
  pub is_promoted : Bool
  pub row_channels : List (String × String)

-- `sorted` of texts
abbrev text_le : String → String → Bool
text_le a b = elim (compare a b) [ Ordering.gt ↦ false | _ ↦ true ]

-- `sorted(f"{name} {value}" ... if value != "done")`
unfoldable pub dead_channels : List (String × String) → List String
unfolding sort
dead_channels channels = sort text_le (
    map (λ (c : String × String). c.0 <+> (" " <+> c.1))
      (filterb (λ (c : String × String). not (c.1 == "done")) channels))

-- `", ".join`
abbrev comma_join : List String → String
comma_join [] = ""
comma_join (t ∷ []) = t
comma_join (t ∷ u ∷ ts) = t <+> (", " <+> comma_join (u ∷ ts))

abbrev or_text : String → String → String
or_text s t = if s == "" then t else s

abbrev pub given : String → Option String
given s = if s == "" then none else some s

abbrev pub row_of : RunReceipt → State → String → Row
row_of r state detail = record {
  backend = "fuko:" <+> r.label;
  state = state;
  head_reviewed = given r.head_sha;
  detail = detail;
  with_content = none;
}

-- `_sha_match(receipt.head_sha, head_sha) if receipt.head_sha else False`
abbrev pub is_on_head : String → RunReceipt → Bool
is_on_head head r = not (r.head_sha == "") && sha_match r.head_sha head

-- The state and the detail of a receipt whose label is configured.
unfoldable pub outcome : String → RunReceipt → State × String
unfolding sha_match receipt_is_valid dead_channels take_text
outcome head r =
    if not (is_on_head head r)
    then (
      pending,
      "latest run covers "
          <+> (or_text (take_text 7 r.head_sha) "an unknown commit" <+> ", not HEAD"),
    )
    else elim r.run_state [
      | failed ↦ (unavailable, or_text r.detail "every model in the branch pool was exhausted")
      | started ↦ (in_progress, "started on HEAD, no outcome recorded yet")
      | finished ↦
          if not (receipt_is_valid r)
          then (
            degraded,
            "VOID: branch is labelled "
                <+> (r.label
                    <+> (" but " <+> (or_text r.model "an unrecorded model" <+> " answered"))),
          )
          else if any (λ c. true) (dead_channels r.channels)
          then (
            degraded,
            "reviewed HEAD, but reduced coverage: " <+> comma_join (dead_channels r.channels),
          )
          else (done, "reviewed HEAD")
    ]

-- The dead channels are only looked for where the run is finished, on the head.
abbrev pub dead_of : String → RunReceipt → List String
dead_of head r =
    if is_on_head head r && is_finished r.run_state then dead_channels r.channels else []

-- `configured is not None and label not in configured`, denied
abbrev pub is_configured : Option (List String) → String → Bool
is_configured none label = true
is_configured (some labels) label = elem label labels

-- The row of the newest receipt under a label.
unfoldable pub fuko_row : String → Option (List String) → RunReceipt → FukoRow
unfolding outcome receipt_is_valid
fuko_row head configured r =
    let judged = outcome head r in
    if is_configured configured r.label
    then record {
      row = row_of r judged.0 judged.1;
      seat_role = r.role;
      valid = is_on_head head r && (receipt_is_valid r && not (any (λ c. true) (dead_of head r)));
      seat = r.label;
      answered = r.model;
      review_backend = r.driver;
      is_promoted = r.promoted;
      row_channels = r.channels;
    }
    else record {
      row = row_of r superseded "label is no longer configured (seat renamed or removed)";
      seat_role = r.role;
      valid = false;
      seat = r.label;
      answered = r.model;
      review_backend = r.driver;
      is_promoted = false;
      row_channels = r.channels;
    }

-- `latest[receipt.label] = receipt`, of each receipt in turn
unfoldable pub latest_from :
    List (String × RunReceipt) → List RunReceipt → List (String × RunReceipt)
unfolding put
latest_from latest [] = latest
latest_from latest (r ∷ rs) = latest_from (put latest r.label r) rs

-- `{c.strip() for c in configured_labels if c.strip()} or None`
unfoldable pub configured_of : Option (List String) → Option (List String)
unfolding strip
configured_of none = none
configured_of (some labels) =
    let kept = filterb (λ l. not (l == "")) (map strip labels) in
    if any (λ l. true) kept then some kept else none

module _ (is_fuko_author : String → Bool) (lower : String → String)
    (receipts_in : String → List RunReceipt) where
  -- `_receipt_author_allowed`, with the names of the caller stripped and lowered
  unfoldable pub author_allowed : Option (List String) → String → Bool
  unfolding strip
  author_allowed allowed login = if login == "" then false else elim allowed [
    | none ↦ is_fuko_author login
    | some logins ↦ elem (lower login) (map (λ a. lower (strip a)) logins)
  ]

  -- The receipts of the comments whose author may assert coverage, in order.
  unfoldable pub accepted_receipts : Option (List String) → List Review → List RunReceipt
  unfolding author_allowed strip
  accepted_receipts allowed [] = []
  accepted_receipts allowed (comment ∷ comments) =
      let rest = accepted_receipts allowed comments in
      if author_allowed allowed (strip comment.login)
      then receipts_in comment.body ++ rest
      else rest

  -- `fuko_states`
  unfoldable pub fuko_states :
      String → List Review → Option (List String) → Option (List String) → List FukoRow
  unfolding latest_from accepted_receipts configured_of fuko_row sort
  fuko_states head comments allowed labels =
      sort (λ (a b : FukoRow). text_le a.row.backend b.row.backend)
        (map (λ (entry : String × RunReceipt). fuko_row head (configured_of labels) entry.1)
          (latest_from [] (accepted_receipts allowed comments)))

  -- `reviewer_states`: the rows of the other reviewers, and those of fuko.
  unfoldable pub reviewer_states :
      Patterns
      → (String → Bool)
      → String
      → List Review
      → List Review
      → List CheckRun
      → Bool
      → Option (List String)
      → Option (List String)
      → List Row × List FukoRow
  unfolding coderabbit_state copilot_state fuko_states
  reviewer_states p says_quota head comments reviews check_runs include_fuko allowed labels = (
    coderabbit_state p lower head comments reviews check_runs
        ∷ copilot_state lower says_quota head reviews comments
        ∷ [],
    (if include_fuko then fuko_states head comments allowed labels else []),
  )
