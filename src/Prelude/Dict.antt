-- ===== src/Prelude/Dict.antt =====
-- Python's `dict` as an association list in insertion order.
use mathlib.Core.Path.{◌≡◌, refl, sym, subst, ◌∙◌}
use mathlib.Core.Logic.{inl, inr}
use mathlib.Core.Bool.{Bool, true, false}
use mathlib.Core.List.{List, [], ◌∷◌, ◌++◌}
use mathlib.Core.Option.{Option, none, some}
use native.Mathlib.Omega.{arith}
use fuko_pr.Prelude.Tests.{Eq, ◌==◌, ==_iff, if◌then◌else◌, Option-cases}

module _ {ℓ} {K V : Type ℓ} ⦃e : Eq K⦄ where
  -- `d.get(k)`
  unfoldable pub get : List (K × V) → K → Option V
  get [] k = none
  get ((j, v) ∷ d) k = if j == k then some v else get d k

  -- `d[k] = v`
  unfoldable pub put : List (K × V) → K → V → List (K × V)
  put [] k v = (k, v) ∷ []
  put ((j, w) ∷ d) k v = if j == k then (j, v) ∷ d else (j, w) ∷ put d k v

  -- `d.setdefault(k, v)`, for its effect
  unfoldable pub set_default : List (K × V) → K → V → List (K × V)
  unfolding get
  set_default d k v = elim (get d k) [ none ↦ d ++ (k, v) ∷ [] | some w ↦ d ]

  -- `d.pop(k, None)`, for its effect
  unfoldable pub remove : List (K × V) → K → List (K × V)
  remove [] k = []
  remove ((j, v) ∷ d) k = let rest = remove d k in if j == k then rest else (j, v) ∷ rest

  pub get-put :
      (d : List (K × V)) (k j : K) (v : V)
      → get (put d k v) j ≡ (if k == j then some v else get d j)
  unfolding get put
  get-put [] k j v = refl
  get-put ((i, w) ∷ d) k j v = ground (arith, get-put d k j v, ==_iff i k, ==_iff i j, ==_iff k j)

  pub get-remove :
      (d : List (K × V)) (k j : K) → get (remove d k) j ≡ (if k == j then none else get d j)
  unfolding get remove
  get-remove [] k j = ground arith
  get-remove ((i, w) ∷ d) k j = ground (arith, get-remove d k j, ==_iff i k, ==_iff i j, ==_iff k j)

  get-append :
      (d : List (K × V)) (k j : K) (v : V)
      → get d k ≡ none
      → get (d ++ (k, v) ∷ []) j ≡ (if k == j then some v else get d j)
  unfolding get
  get-append [] k j v h = refl
  get-append ((i, w) ∷ d) k j v h =
      ground (arith, get-append d k j v, ==_iff i k, ==_iff i j, ==_iff k j)

pub ruleset dict_laws = (get-put, get-remove)

-- A property of the entries of a dict holds of the entry that `setdefault` adds or leaves.
module _ {ℓ κ} {K V : Type ℓ} ⦃e : Eq K⦄ (P : K → V → Type κ) where
  abbrev pub Entries : List (K × V) → Type (ℓ ⊔ κ)
  Entries d = (k : K) (v : V) → get d k ≡ some v → P k v

  added :
      (d : List (K × V)) (k j : K) (v w : V) (same : Bool)
      → (k == j) ≡ same
      → P k v
      → Entries d
      → (if same then some v else get d j) ≡ some w
      → P j w
  added d k j v w true c p h q =
      let e : v ≡ w = cc in subst (λ x. P x w) ((==_iff k j).0 c) (subst (P k) e p)
  added d k j v w false c p h q = h j w q

  pub set_default-Entries :
      (d : List (K × V)) (k : K) (v : V) → P k v → Entries d → Entries (set_default d k v)
  unfolding set_default
  set_default-Entries d k v p h j w q = elim (Option-cases (get d k)) [
    | inl absent ↦
        added d k j v w (k == j) refl p h
          (sym (get-append d k j v absent) ∙ (rw (absent, set_default) at q))
    | inr (x, present) ↦ h j w (rw (present, set_default) at q)
  ]
