-- ===== src/Fleet/OwnSlots.antt =====
-- The seats of a fleet that names its slots (sidecar/runner.py, `_branch_seats`).
use fuko_pr.Prelude.{
  ℕ, suc, String, ◌≡◌, refl, sym, ap, true, false, Option, none, some, List, [], ◌∷◌, arith, map,
  elem, nodup, All, All-map, All-both, All-of, subst, ◌==◌, ==_iff, ==_refl, nat_eq, text_eq,
  Bool-cases, inl, inr,
}
use fuko_pr.Fleet.Models.{ReviewModel}
use fuko_pr.Fleet.Seats.{
  slot_of, slot_count, first_choice, longest, free_seat, seats_from, branch_seats,
}

slot_count-absent :
    (s : String) (names : List String) → elem s names ≡ false → slot_count s (map some names) ≡ 0
unfolding slot_count
slot_count-absent s [] h = refl
slot_count-absent s (t ∷ names) h = ground (arith, slot_count-absent s names)

absent : (s : String) (names : List String) → nodup (s ∷ names) ≡ true → elem s names ≡ false
absent s names h = ground (arith, h)

absent-All :
    (s : String) (names : List String) → elem s names ≡ false → All (λ t. (s == t) ≡ false) names
absent-All s [] h = tt
absent-All s (t ∷ names) h = (
  elim (Bool-cases (s == t)) [
    | inl same ↦ absurd (ground (arith, (==_iff t s).1 (sym ((==_iff s t).0 same)), h))
    | inr other ↦ other
  ],
  absent-All s names (ground (arith, h)),
)

-- In a list of distinct slots each stands once.
slot_count-nodup :
    (names : List String) → nodup names ≡ true → All (λ s. slot_count s (map some names) ≡ 1) names
unfolding slot_count
slot_count-nodup [] h = tt
slot_count-nodup (t ∷ names) h = (
  rw (==_refl t) (omega (arith, slot_count-absent t names (absent t names h))),
  All-map _ _ (λ x k. rw k.0 (omega (arith, k.1))) names
      (All-both _ _ names (absent-All t names (absent t names h))
        (slot_count-nodup names (ground (arith, h)))),
)

abbrev head_of : List (Option String) → Option String
head_of [] = none
head_of (x ∷ xs) = x

abbrev rest_of : List (Option String) → List (Option String)
rest_of [] = []
rest_of (x ∷ xs) = xs

module _ (lower : String → String) (slots : List (Option String)) where
  own_seat :
      (index : ℕ) (taken : List String) (m : ReviewModel) (s : String)
      → slot_of lower m ≡ some s
      → slot_count s slots ≡ 1
      → elem s taken ≡ false
      → free_seat (suc (longest taken)) taken index (first_choice slots m (slot_of lower m)) ≡ s
  unfolding first_choice free_seat
  own_seat index taken m s e once free = rw (e, first_choice, once, free) refl

  seats_from-slots :
      (index : ℕ) (taken : List String) (ms : List ReviewModel) (names : List String)
      → map (slot_of lower) ms ≡ map some names
      → All (λ s. slot_count s slots ≡ 1) names
      → All (λ s. elem s taken ≡ false) names
      → nodup names ≡ true
      → seats_from lower slots index taken ms ≡ names
  unfolding seats_from
  seats_from-slots index taken [] [] same once free d = refl
  seats_from-slots index taken [] (s ∷ names) same once free d = cc
  seats_from-slots index taken (m ∷ ms) [] same once free d = cc
  seats_from-slots index taken (m ∷ ms) (s ∷ names) same once free d =
      rw (own_seat index taken m s (ap head_of same) once.0 free.0) (
        ap (λ t. s ∷ t)
          (seats_from-slots (suc index) (s ∷ taken) ms names (ap rest_of same) once.1
            (All-map _ _ (λ t k. rw (k.0, k.1) refl) names
              (All-both _ _ names (absent-All s names (absent s names d)) free.1))
            (ground (arith, d))))

-- When every reviewer has a slot and no two slots are the same, the seats are the slots, whatever
-- models stand behind them: a change of model keeps the ledger of its seat.
pub branch_seats-slots :
    (lower : String → String) (reviewers : List ReviewModel) (names : List String)
    → map (slot_of lower) reviewers ≡ map some names
    → nodup names ≡ true
    → branch_seats lower reviewers ≡ names
unfolding branch_seats
branch_seats-slots lower reviewers names same d =
    seats_from-slots lower (map (slot_of lower) reviewers) 0 [] reviewers names same
      (subst (λ slots. All (λ s. slot_count s slots ≡ 1) names) (sym same)
        (slot_count-nodup names d))
      (All-of _ (λ s. refl) names) d
