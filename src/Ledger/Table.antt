-- ===== src/Ledger/Table.antt =====
-- SQL over a list of rows: UPDATE ... WHERE, INSERT, and what they leave alone.
use fuko_pr.Prelude.{
  ◌≡◌, refl, Bool, true, false, List, [], ◌∷◌, arith, any, filterb, countb, All, if◌then◌else◌,
}

module _ {ℓ} {A : Type ℓ} where
  -- `UPDATE ... SET set WHERE test`; its `rowcount` is `countb test rows`.
  unfoldable pub update_where : (A → Bool) → (A → A) → List A → List A
  update_where test set [] = []
  update_where test set (r ∷ rs) = (if test r then set r else r) ∷ update_where test set rs

  -- Rows that a view shows stay as they are, if no updated row is in the view before or after.
  pub filterb-update_where :
      (view test : A → Bool) (set : A → A)
      → ((r : A) → test r ≡ true → view r ≡ false)
      → ((r : A) → test r ≡ true → view (set r) ≡ false)
      → (rows : List A) → filterb view (update_where test set rows) ≡ filterb view rows
  unfolding update_where
  filterb-update_where view test set before after [] = refl
  filterb-update_where view test set before after (r ∷ rs) =
      ground (arith, before r, after r, filterb-update_where view test set before after rs)

  -- A property of rows survives an update whose assignment keeps it.
  pub All-update_where {κ} :
      (P : A → Type κ) (test : A → Bool) (set : A → A)
      → ((r : A) → test r ≡ true → P r → P (set r))
      → (rows : List A) → All P rows
      → All P (update_where test set rows)
  unfolding update_where
  All-update_where P test set keep [] h = tt
  All-update_where P test set keep (r ∷ rs) h =
      (changed (test r) refl, All-update_where P test set keep rs h.1)
    where
      changed : (b : Bool) → test r ≡ b → P (if b then set r else r)
      changed true e = keep r e h.0
      changed false e = h.0

  -- A row that passes `want` is still there after an update that keeps `want`.
  pub any-update_where :
      (want test : A → Bool) (set : A → A)
      → ((r : A) → test r ≡ true → want r ≡ true → want (set r) ≡ true)
      → (rows : List A) → any want rows ≡ true
      → any want (update_where test set rows) ≡ true
  unfolding update_where
  any-update_where want test set keep [] h = h
  any-update_where want test set keep (r ∷ rs) h =
      ground (arith, keep r, any-update_where want test set keep rs)

  -- An update makes no row that passes `want` if the rows that it sets do not pass it.
  pub countb-update_where :
      (want test : A → Bool) (set : A → A)
      → ((r : A) → test r ≡ true → want (set r) ≡ want r)
      → (rows : List A) → countb want (update_where test set rows) ≡ countb want rows
  unfolding update_where
  countb-update_where want test set keep [] = refl
  countb-update_where want test set keep (r ∷ rs) =
      ground (arith, keep r, countb-update_where want test set keep rs)

  -- Each row of the first list stands at its place in the second, as the call may leave it.
  abbrev pub Pairs : (A → A → Type 0) → List A → List A → Type 0
  Pairs R [] [] = Unit
  Pairs R [] (b ∷ bs) = ⊥
  Pairs R (a ∷ as_) [] = ⊥
  Pairs R (a ∷ as_) (b ∷ bs) = R a b × Pairs R as_ bs

  pub Pairs-update :
      (R : A → A → Type 0) (test : A → Bool) (set : A → A)
      → ((r : A) → test r ≡ true → R r (set r))
      → ((r : A) → test r ≡ false → R r r)
      → (rows : List A) → Pairs R rows (update_where test set rows)
  unfolding update_where
  Pairs-update R test set hit miss [] = tt
  Pairs-update R test set hit miss (r ∷ rs) =
      (changed (test r) refl, Pairs-update R test set hit miss rs)
    where
      changed : (b : Bool) → test r ≡ b → R r (if b then set r else r)
      changed true e = hit r e
      changed false e = miss r e

  pub Pairs-same : (R : A → A → Type 0) → ((r : A) → R r r) → (rows : List A) → Pairs R rows rows
  Pairs-same R h [] = tt
  Pairs-same R h (r ∷ rs) = (h r, Pairs-same R h rs)
