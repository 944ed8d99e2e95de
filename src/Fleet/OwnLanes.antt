-- ===== src/Fleet/OwnLanes.antt =====
-- Every branch of a run has a lane of its own (sidecar/runner.py, `_branch_seats`).
use fuko_pr.Prelude.{
  ℕ, zero, suc, ◌+◌, ◌≤◌, ◌<◌, String, ◌<+>◌, ◌≡◌, refl, sym, ap, true, false, Option, List, [],
  ◌∷◌, arith, map, length, elem, nodup, All, All-map, ◌==◌, ==_iff, nat_eq, text_eq, decimal,
  text_length, text_length-append, Bool-cases, inl, inr,
}
use fuko_pr.Fleet.Models.{ReviewModel}
use fuko_pr.Fleet.Seats.{slot_of, first_choice, longest, free_seat, seats_from, branch_seats}

elem-longest :
    (s : String) (taken : List String) → elem s taken ≡ true → text_length s ≤ longest taken
unfolding longest
elem-longest s [] h = cc
elem-longest s (t ∷ taken) h = elim (Bool-cases (t == s)) [
  | inl same ↦ omega (arith, ap text_length ((==_iff t s).0 same))
  | inr other ↦ let k : elem s taken ≡ true = ground arith in omega (arith, elem-longest s taken k)
]

free_past :
    (s : String) (taken : List String) → longest taken < text_length s → elem s taken ≡ false
free_past s taken h = elim (Bool-cases (elem s taken)) [
  | inl here ↦ absurd (omega (arith, elem-longest s taken here))
  | inr free ↦ free
]

text_length-longer :
    (seat : String) (index : ℕ) → text_length seat < text_length (seat <+> ("#" <+> decimal index))
text_length-longer seat index =
    omega (
      arith,
      text_length-append seat ("#" <+> decimal index),
      text_length-append "#" (decimal index),
    )

-- The loop ends outside of the seats taken when its fuel leads past the longest of them.
pub free_seat-free :
    (fuel : ℕ) (taken : List String) (index : ℕ) (seat : String)
    → longest taken < text_length seat + fuel
    → elem (free_seat fuel taken index seat) taken ≡ false
unfolding free_seat
free_seat-free zero taken index seat h = free_past seat taken (omega arith)
free_seat-free (suc fuel) taken index seat h = elim (Bool-cases (elem seat taken)) [
  | inl here ↦ rw here (
      free_seat-free fuel taken index (seat <+> ("#" <+> decimal index))
        (omega (arith, text_length-longer seat index)))
  | inr free ↦ rw free free
]

elem-absent :
    (s : String) (seats : List String) → All (λ t. (s == t) ≡ false) seats → elem s seats ≡ false
elem-absent s [] h = refl
elem-absent s (t ∷ seats) h = elim (Bool-cases (t == s)) [
  | inl same ↦ absurd (ground (arith, (==_iff s t).1 (sym ((==_iff t s).0 same)), h.0))
  | inr other ↦ rw other (elem-absent s seats h.1)
]

module _ (lower : String → String) (slots : List (Option String)) where
  -- The seats given from some point on are distinct, and none of them was taken.
  seats_from-Fresh :
      (index : ℕ) (taken : List String) (ms : List ReviewModel)
      → All (λ s. elem s taken ≡ false) (seats_from lower slots index taken ms)
        × (nodup (seats_from lower slots index taken ms) ≡ true)
  unfolding seats_from
  seats_from-Fresh index taken [] = (tt, refl)
  seats_from-Fresh index taken (m ∷ ms) =
      let seat =
        free_seat (suc (longest taken)) taken index (first_choice slots m (slot_of lower m)) in
      let rest = seats_from-Fresh (suc index) (seat ∷ taken) ms in
      let apart : All (λ t. (seat == t) ≡ false)
          (seats_from lower slots (suc index) (seat ∷ taken) ms) =
        All-map _ _ (λ t h. ground (arith, h)) _ rest.0 in
      (
        (
          free_seat-free (suc (longest taken)) taken index (first_choice slots m (slot_of lower m))
              (omega arith),
          All-map _ _ (λ t h. ground (arith, h)) _ rest.0,
        ),
        rw (elem-absent seat _ apart) rest.1,
      )

  length-seats_from :
      (index : ℕ) (taken : List String) (ms : List ReviewModel)
      → length (seats_from lower slots index taken ms) ≡ length ms
  unfolding seats_from
  length-seats_from index taken [] = refl
  length-seats_from index taken (m ∷ ms) = ap suc (length-seats_from (suc index) _ ms)

-- Every run ends with one seat for each of its reviewers, and no two of them share a seat, whatever
-- the entries are: with the same `token_env`, with names that differ in case only, or with none.
pub branch_seats-nodup :
    (lower : String → String) (reviewers : List ReviewModel)
    → (length (branch_seats lower reviewers) ≡ length reviewers)
      × (nodup (branch_seats lower reviewers) ≡ true)
unfolding branch_seats
branch_seats-nodup lower reviewers = (
  length-seats_from lower (map (slot_of lower) reviewers) 0 [] reviewers,
  (seats_from-Fresh lower (map (slot_of lower) reviewers) 0 [] reviewers).1,
)
