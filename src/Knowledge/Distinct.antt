-- ===== src/Knowledge/Distinct.antt =====
-- The keys that a batch embeds (sidecar/dedup.py): each once, and none that is stored.
use fuko_pr.Prelude.{
  ℕ, zero, suc, ◌-◌, ◌≡◌, refl, sym, subst, true, false, Option, none, some, List, [], ◌∷◌, arith,
  take, map, elem, nodup, All, All-map, All-take, ◌==◌, ==_iff, text_eq, pair_eq, Bool-cases, inl,
  inr,
}
use fuko_pr.Knowledge.Dedup.{IngestItem, Key, key, partition}
use fuko_pr.Knowledge.Batches.{new_items, fitting, partition-IsSplit}

-- The keys of items stand once each, and outside of a list of keys.
pub record IsFresh (known : List Key) (items : List IngestItem) : Type 0 where
  pub unknown : All (λ i. elem (key i) known ≡ false) items
  pub once : nodup (map key items) ≡ true

elem-other :
    (k : Key) (known : List Key) (items : List IngestItem)
    → All (λ i. elem (key i) (k ∷ known) ≡ false) items
    → elem k (map key items) ≡ false
elem-other k known [] h = refl
elem-other k known (i ∷ items) h = elim (Bool-cases (key i == k)) [
  | inl same ↦
      let back : (k == key i) ≡ true = (==_iff k (key i)).1 (sym ((==_iff (key i) k).0 same)) in
      absurd (ground (arith, h.0, back))
  | inr other ↦ rw other (elem-other k known items h.1)
]

new_items-IsFresh :
    (known : List Key) (items : List IngestItem) → IsFresh known (new_items known items)
new_items-IsFresh known [] = record { unknown = tt; once = refl }
new_items-IsFresh known (x ∷ xs) = elim (Bool-cases (elem (key x) known)) [
  | inl here ↦ rw here (new_items-IsFresh known xs)
  | inr new ↦
      let rest = new_items-IsFresh (key x ∷ known) xs in
      rw new (record {
        unknown = (new, All-map _ _ (λ i h. ground (arith, h)) _ rest.unknown);
        once = rw (elem-other (key x) known _ rest.unknown) rest.once;
      })
]

elem-take :
    (k : Key) (n : ℕ) (items : List IngestItem)
    → elem k (map key items) ≡ false
    → elem k (map key (take n items)) ≡ false
elem-take k zero items h = refl
elem-take k (suc n) [] h = refl
elem-take k (suc n) (i ∷ items) h = ground (arith, h, elem-take k n items)

take-IsFresh :
    (n : ℕ) (known : List Key) (items : List IngestItem)
    → IsFresh known items
    → IsFresh known (take n items)
take-IsFresh n known items h = record {
  unknown = All-take _ n items h.unknown;
  once = nodup-take n items h.once;
}
  where
    nodup-take :
        (m : ℕ) (xs : List IngestItem)
        → nodup (map key xs) ≡ true
        → nodup (map key (take m xs)) ≡ true
    nodup-take zero xs e = refl
    nodup-take (suc m) [] e = refl
    nodup-take (suc m) (x ∷ xs) e = ground (arith, e, nodup-take m xs, elem-take (key x) m xs)

fitting-IsFresh :
    (max_new : Option ℕ) (known : List Key) (items : List IngestItem)
    → IsFresh known items
    → IsFresh known (fitting max_new 0 items)
fitting-IsFresh none known items h = h
fitting-IsFresh (some n) known items h = take-IsFresh (n - 0) known items h

-- Whatever the batch and the cap, the items that it embeds have keys that are all different and
-- none of which is stored already.
pub partition-IsFresh :
    (items : List IngestItem) (existing : List Key) (max_new : Option ℕ)
    → IsFresh existing (partition items existing max_new).to_embed
partition-IsFresh items existing max_new =
    subst (IsFresh existing) (sym (partition-IsSplit items existing max_new).embedded)
      (fitting-IsFresh max_new existing _ (new_items-IsFresh existing items))
