-- ===== src/Fleet/Backends.antt =====
-- The backend test of an escalation (sidecar/runner.py, `plan_escalation`).
use fuko_pr.Prelude.{
  String, ◌≡◌, ◌∙◌, sym, Bool, true, false, List, [], ◌∷◌, arith, any, length, elem, dedup,
  elem-dedup, All, All-map, All-any, ◌==◌, ==_iff, ==_refl, nat_eq, text_eq,
}
use fuko_pr.Fleet.Escalation.{joins_other}

-- The one element of a list is what the list contains.
only :
    (ys : List String) (x b : String)
    → (length ys == 1) ≡ true
    → elem x ys ≡ true
    → elem b ys ≡ true
    → x ≡ b
only [] x b one here there = cc
only (y ∷ []) x b one here there =
    sym ((==_iff y x).0 (ground (arith, here))) ∙ (==_iff y b).0 (ground (arith, there))
only (y ∷ z ∷ ys) x b one here there = absurd (ground (arith, one))

-- Backends that are one set with one element, the entry's, are all the entry's.
pub joins_own : (bs : List String) (b : String) → joins_other bs b ≡ false → All (λ x. x ≡ b) bs
joins_own [] b h = tt
joins_own (x ∷ xs) b h =
    let bs = x ∷ xs in
    let one : (length (dedup bs) == 1) ≡ true = ground (arith, h) in
    let there : elem b bs ≡ true = ground (arith, h) in
    All-map (λ y. (q : String → Bool) → q y ≡ true → any q bs ≡ true) (λ y. y ≡ b)
      (λ y here.
        only (dedup bs) y b one (elem-dedup y bs ∙ here (λ t. t == y) (==_refl y))
          (elem-dedup b bs ∙ there))
      bs (All-any bs)
