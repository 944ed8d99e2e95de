-- ===== src/Reviewers/Coverage.antt =====
-- What a done row of fuko's own stands for (`fuko_states` of sidecar/status.py).
use fuko_pr.Prelude.{
  String, ◌≡◌, ◌⊎◌, inl, inr, refl, sym, ap, ◌∙◌, Bool, true, false, not, ◌&&◌, Option, none, some,
  List, [], ◌∷◌, map, arith, ◌==◌, ==_iff, ==_refl, text_eq, if◌then◌else◌, Bool-cases,
  Option-cases, any, all, filterb, any-sort, All, All-map, All-sort, All-of_map, put, Distinct,
  IsPut, put-Distinct, put-IsPut,
}
use mathlib.Core.Option
use fuko_pr.Reviewers.Rows.{State, done, Review, sha_match}
use fuko_pr.Reviewers.Receipts.{
  RunReceipt, FukoRow, started, finished, failed, is_finished, receipt_is_valid, dead_channels,
  is_on_head, dead_of, RunState, outcome, is_configured, fuko_row, latest_from, configured_of,
  accepted_receipts, fuko_states,
}

abbrev is_done : State → Bool
is_done done = true
is_done state = false

-- The last receipt under a label.
abbrev pub last_with : String → List RunReceipt → Option RunReceipt
last_with label [] = none
last_with label (r ∷ rs) = elim (last_with label rs) [
  | some later ↦ some later
  | none ↦ if r.label == label then some r else none
]

last_with-label :
    (label : String) (rs : List RunReceipt) (r : RunReceipt)
    → last_with label rs ≡ some r
    → r.label ≡ label
last_with-label label [] r h = cc
last_with-label label (s ∷ rs) r h = elim (Option-cases (last_with label rs)) [
  | inl absent ↦ elim (Bool-cases (s.label == label)) [
    | inl here ↦
        let same : some s ≡ some r = rw (absent, here) at h in
        ap (λ (t : RunReceipt). t.label) (sym (Option.some-injective s r same))
        ∙ (==_iff s.label label).0 here
    | inr other ↦ cc (rw (absent, other) at h)
  ]
  | inr (later, present) ↦ last_with-label label rs r (present ∙ (rw present at h))
]

abbrev IsLast : (String × RunReceipt → Type 0) → List RunReceipt → String × RunReceipt → Type 0
IsLast P rs entry =
    (last_with entry.0 rs ≡ some entry.1) ⊎ ((last_with entry.0 rs ≡ none) × P entry)

IsLast-step :
    (P : String × RunReceipt → Type 0) (r : RunReceipt) (rs : List RunReceipt)
    (entry : String × RunReceipt)
    → IsLast (IsPut P r.label r) rs entry
    → IsLast P (r ∷ rs) entry
IsLast-step P r rs entry (inl later) = inl (rw later refl)
IsLast-step P r rs entry (inr (absent, inl (key, value))) =
    let same : r.label == entry.0 ≡ true = ap (λ t. r.label == t) key ∙ ==_refl r.label in
    inl (rw (absent, same) (ap (λ t. some t) (sym value)))
IsLast-step P r rs entry (inr (absent, inr (other, old))) =
    let differ : r.label == entry.0 ≡ false =
      ground (arith, other, ==_iff entry.0 r.label, ==_iff r.label entry.0) in
    inr (rw (absent, differ) refl, old)

latest_from-IsLast :
    (P : String × RunReceipt → Type 0) (d : List (String × RunReceipt)) (rs : List RunReceipt)
    → Distinct d
    → All P d
    → All (IsLast P rs) (latest_from d rs)
unfolding latest_from
latest_from-IsLast P d [] distinct old = All-map _ _ (λ entry p. inr (refl, p)) d old
latest_from-IsLast P d (r ∷ rs) distinct old =
    All-map _ _ (IsLast-step P r rs) (latest_from (put d r.label r) rs) (
      latest_from-IsLast (IsPut P r.label r) (put d r.label r) rs
        (put-Distinct d r.label r distinct) (put-IsPut P d r.label r distinct old))

all-none :
    (f : String × String → String) (channels : List (String × String))
    → any (λ c. true) (map f (filterb (λ c. not (c.1 == "done")) channels)) ≡ false
    → all (λ c. c.1 == "done") channels ≡ true
all-none f [] h = refl
all-none f (c ∷ channels) h = elim (Bool-cases (c.1 == "done")) [
  | inl alive ↦ rw alive (all-none f channels (rw alive at h))
  | inr dead ↦ cc (rw dead at h)
]

dead_channels-none :
    (channels : List (String × String))
    → any (λ c. true) (dead_channels channels) ≡ false
    → all (λ c. c.1 == "done") channels ≡ true
unfolding dead_channels
dead_channels-none channels h = all-none _ channels (sym (any-sort _ (λ c. true) _) ∙ h)

-- A finished run on the head, by the model of its seat, with every channel done.
abbrev pub IsReview : String → RunReceipt → Type 0
IsReview head r =
    (sha_match r.head_sha head ≡ true)
    × (r.run_state ≡ finished)
    × (r.model ≡ r.label)
    × (all (λ c. c.1 == "done") r.channels ≡ true)

finished_only : (state : RunState) → is_finished state ≡ true → state ≡ finished
finished_only finished h = refl
finished_only started h = cc
finished_only failed h = cc

valid_model : (r : RunReceipt) → receipt_is_valid r ≡ true → r.model ≡ r.label
unfolding receipt_is_valid
valid_model r h = (==_iff r.model r.label).0 (ground (arith, h))

-- A row that is done stands for such a run; what is valid is what is done.
abbrev Stands : String → RunReceipt → Bool → Bool → Type 0
Stands head r valid state = (valid ≡ state) × ((state ≡ false) ⊎ IsReview head r)

RunState-cases : (s : RunState) → (s ≡ finished) ⊎ ((s ≡ started) ⊎ (s ≡ failed))
RunState-cases finished = inl refl
RunState-cases started = inr (inl refl)
RunState-cases failed = inr (inr refl)

all_three : (a b c : Bool) → a ≡ true → b ≡ true → c ≡ false → (a && (b && not c)) ≡ true
all_three a b c h k l = ground arith

second_false : (a b c : Bool) → b ≡ false → (a && (b && not c)) ≡ false
second_false a b c h = ground arith

third_false : (a b c : Bool) → c ≡ true → (a && (b && not c)) ≡ false
third_false a b c h = ground arith

finished-Stands :
    (head : String) (r : RunReceipt)
    → is_on_head head r ≡ true
    → r.run_state ≡ finished
    → Stands head r
        (is_on_head head r && (receipt_is_valid r && not (any (λ c. true) (dead_of head r))))
        (is_done (outcome head r).0)
unfolding outcome
finished-Stands head r here ended = elim (Bool-cases (receipt_is_valid r)) [
  | inr void ↦
      let state : is_done (outcome head r).0 ≡ false = rw (here, ended, void, outcome) refl in
      (second_false _ _ _ void ∙ sym state, inl state)
  | inl valid ↦ elim (Bool-cases (any (λ c. true) (dead_channels r.channels))) [
    | inl dead ↦
        let state : is_done (outcome head r).0 ≡ false =
          rw (here, ended, valid, dead, outcome) refl in
        let found : dead_of head r ≡ dead_channels r.channels = rw (here, ended) refl in
        (third_false _ _ _ (ap (any (λ c. true)) found ∙ dead) ∙ sym state, inl state)
    | inr alive ↦
        let judged : outcome head r ≡ (done, "reviewed HEAD") =
          rw (here, ended, valid, alive, outcome) refl in
        let dead : dead_of head r ≡ dead_channels r.channels = rw (here, ended) refl in
        let none_dead = ap (any (λ c. true)) dead ∙ alive in
        (
          all_three _ _ _ here valid none_dead
              ∙ sym (ap (λ (o : State × String). is_done o.0) judged),
          inr (
            ground (arith, here),
            ended,
            valid_model r valid,
            dead_channels-none r.channels alive,
          ),
        )
  ]
]

outcome-Stands :
    (head : String) (r : RunReceipt)
    → Stands head r
        (is_on_head head r && (receipt_is_valid r && not (any (λ c. true) (dead_of head r))))
        (is_done (outcome head r).0)
unfolding outcome receipt_is_valid
outcome-Stands head r = elim (Bool-cases (is_on_head head r)) [
  | inr away ↦ rw (away, outcome) (refl, inl refl)
  | inl here ↦ elim (RunState-cases r.run_state) [
    | inl ended ↦ finished-Stands head r here ended
    | inr (inl going) ↦ rw (here, going, receipt_is_valid, outcome) (refl, inl refl)
    | inr (inr broken) ↦ rw (here, broken, receipt_is_valid, outcome) (refl, inl refl)
  ]
]

-- What a row stands for among the receipts that count.
abbrev pub IsCovered : String → Option (List String) → List RunReceipt → FukoRow → Type 0
IsCovered head configured accepted r =
    (r.valid ≡ is_done r.row.state)
    × ((is_done r.row.state ≡ false)
        ⊎ ((receipt : RunReceipt) × (last_with r.seat accepted ≡ some receipt)
            × IsReview head receipt
            × (is_configured configured r.seat ≡ true)))

fuko_row-IsCovered :
    (head : String) (configured : Option (List String)) (accepted : List RunReceipt)
    (label : String) (r : RunReceipt)
    → last_with label accepted ≡ some r
    → IsCovered head configured accepted (fuko_row head configured r)
unfolding fuko_row
fuko_row-IsCovered head configured accepted label r last =
    let same = last_with-label label accepted r last in
    let last' : last_with r.label accepted ≡ some r = ap (λ l. last_with l accepted) same ∙ last in
    let (valid, stands) = outcome-Stands head r in
    elim (Bool-cases (is_configured configured r.label)) [
      | inl known ↦
          rw known (
            valid,
            elim stands [ inl idle ↦ inl idle | inr review ↦ inr (r, last', review, known) ],
          )
      | inr unknown ↦ rw unknown (refl, inl refl)
    ]

-- A row of fuko's is valid exactly if it is done, and a row that is done stands for the last receipt
-- under its label in the comments whose author may assert coverage: that receipt is of a finished run
-- on the head, by the model that its label names, with every channel done, and the label is
-- configured, if it is known which are.
pub fuko_states-IsCovered :
    (is_fuko_author : String → Bool) (lower : String → String)
    (receipts_in : String → List RunReceipt) (head : String) (comments : List Review)
    (allowed labels : Option (List String))
    → All
        (IsCovered head
          (configured_of labels)
          (accepted_receipts is_fuko_author lower receipts_in allowed comments))
        (fuko_states is_fuko_author lower receipts_in head comments allowed labels)
unfolding fuko_states
fuko_states-IsCovered is_fuko_author lower receipts_in head comments allowed labels =
    let accepted = accepted_receipts is_fuko_author lower receipts_in allowed comments in
    let covered = IsCovered head (configured_of labels) accepted in
    All-sort _ covered _ (
      All-of_map covered _ (latest_from [] accepted) (
        All-map _ _
          (λ entry last.
            fuko_row-IsCovered head (configured_of labels) accepted entry.0 entry.1 (only last))
          (latest_from [] accepted) (latest_from-IsLast (λ entry. ⊥) [] accepted tt tt)))
  where
    only : {P Q : Type 0} → P ⊎ (Q × ⊥) → P
    only (inl p) = p
    only (inr (q, never)) = absurd never
