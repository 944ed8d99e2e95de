-- ===== src/Prelude/Keys.antt =====
-- The entries of an association list whose keys all differ, after `d[k] = v`.
use mathlib.Core.Path.{◌≡◌, refl}
use mathlib.Core.Logic.{◌⊎◌, inl, inr}
use mathlib.Core.Bool.{false}
use mathlib.Core.List.{List, [], ◌∷◌}
use native.Mathlib.Omega.{arith}
use fuko_pr.Prelude.Tests.{Eq, ◌==◌, ==_iff, Bool-cases}
use fuko_pr.Prelude.Lists.{All, All-map, All-both}
use fuko_pr.Prelude.Dict.{put}

module _ {ℓ} {K V : Type ℓ} ⦃e : Eq K⦄ where
  abbrev Others : K → List (K × V) → Type 0
  Others k d = All (λ entry. (k == entry.0) ≡ false) d

  -- No key stands twice.
  abbrev pub Distinct : List (K × V) → Type 0
  Distinct [] = Unit
  Distinct (entry ∷ d) = Others entry.0 d × Distinct d

  put-Others :
      (j : K) (d : List (K × V)) (k : K) (v : V)
      → (j == k) ≡ false
      → Others j d
      → Others j (put d k v)
  unfolding put
  put-Others j [] k v h others = (h, tt)
  put-Others j ((i, w) ∷ d) k v h others = elim (Bool-cases (i == k)) [
    | inl here ↦ rw here others
    | inr later ↦ rw later (others.0, put-Others j d k v h others.1)
  ]

  pub put-Distinct : (d : List (K × V)) (k : K) (v : V) → Distinct d → Distinct (put d k v)
  unfolding put
  put-Distinct [] k v h = (tt, tt)
  put-Distinct ((i, w) ∷ d) k v h = elim (Bool-cases (i == k)) [
    | inl here ↦ rw here h
    | inr later ↦ rw later (put-Others i d k v later h.0, put-Distinct d k v h.1)
  ]

  -- An entry is the new one, or it is an old one with another key.
  abbrev pub IsPut {κ} : (K × V → Type κ) → K → V → K × V → Type (ℓ ⊔ κ)
  IsPut P k v entry = ((entry.0 ≡ k) × (entry.1 ≡ v)) ⊎ (((entry.0 == k) ≡ false) × P entry)

  pub put-IsPut {κ} :
      (P : K × V → Type κ) (d : List (K × V)) (k : K) (v : V)
      → Distinct d
      → All P d
      → All (IsPut P k v) (put d k v)
  unfolding put
  put-IsPut P [] k v h old = (inl (refl, refl), tt)
  put-IsPut P ((i, w) ∷ d) k v h old = elim (Bool-cases (i == k)) [
    | inl here ↦
        let same = (==_iff i k).0 here in
        rw here (
          inl (same, refl),
          All-map _ _
              (λ entry kept.
                inr (ground (arith, kept.0, ==_iff i entry.0, ==_iff entry.0 k, same), kept.1))
              d (All-both _ _ d h.0 old.1),
        )
    | inr later ↦ rw later (inr (later, old.0), put-IsPut P d k v h.1 old.1)
  ]
