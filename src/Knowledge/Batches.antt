-- ===== src/Knowledge/Batches.antt =====
-- What `partition` (sidecar/dedup.py) makes of a batch, and that bounded batches drain a backlog.
use fuko_pr.Prelude.{
  ℕ, zero, suc, ◌+◌, ◌-◌, ◌≡◌, refl, ◌∙◌, sym, ap, true, false, ◌||◌, Option, none, some, List, [],
  ◌∷◌, ◌++◌, arith, length, length-append, or_right, take, map, elem, any-append, ◌==◌, ==_refl,
  text_eq, pair_eq, if◌then◌else◌, Bool-cases, inl, inr,
}
use mathlib.Core.List.{append-nil, append_assoc}
use fuko_pr.Knowledge.Dedup.{IngestItem, Key, key, is_full, Batch, take_item, take_items, partition}

-- The items of a list that are new: their keys are not known, and they are not repeats.
abbrev pub new_items : List Key → List IngestItem → List IngestItem
new_items known [] = []
new_items known (x ∷ xs) =
    let skip = new_items known xs in
    let keep = x ∷ new_items (key x ∷ known) xs in if elem (key x) known then skip else keep

-- `xs[n:]`
abbrev pub drop : ℕ → List IngestItem → List IngestItem
drop zero xs = xs
drop (suc n) [] = []
drop (suc n) (x ∷ xs) = drop n xs

-- What fits of a list after `used` places of the cap.
abbrev pub fitting : Option ℕ → ℕ → List IngestItem → List IngestItem
fitting none used xs = xs
fitting (some cap) used xs = take (cap - used) xs

-- What a batch promises of the items: it embeds the first new ones, up to the cap, and counts the
-- others as deferred or as skipped.
pub record IsSplit (items : List IngestItem) (existing : List Key) (max_new : Option ℕ) (b : Batch)
    : Type 0 where
  pub embedded : b.to_embed ≡ fitting max_new 0 (new_items existing items)
  pub deferred : length b.to_embed + b.deferred ≡ length (new_items existing items)
  pub counted : length b.to_embed + b.skipped + b.deferred ≡ length items

-- Two lists of keys that have the same elements give the same new items.
new_items-same :
    (p q : List Key) (xs : List IngestItem)
    → ((k : Key) → elem k p ≡ elem k q)
    → new_items p xs ≡ new_items q xs
new_items-same p q [] h = refl
new_items-same p q (x ∷ xs) h =
    rw
      (
        h (key x),
        new_items-same p q xs h,
        new_items-same (key x ∷ p) (key x ∷ q) xs (λ k. ap (λ b. (key x == k) || b) (h k)),
      )
      refl

take-nil : (n : ℕ) → take {A = IngestItem} n [] ≡ []
take-nil zero = refl
take-nil (suc n) = refl

fitting-nil : (max_new : Option ℕ) (used : ℕ) → fitting max_new used [] ≡ []
fitting-nil none used = refl
fitting-nil (some cap) used = take-nil (cap - used)

fitting-full :
    (max_new : Option ℕ) (ts xs : List IngestItem)
    → is_full max_new ts ≡ true
    → fitting max_new (length ts) xs ≡ []
fitting-full none ts xs h = cc
fitting-full (some cap) ts xs h =
    let none_left : cap - length ts ≡ zero = ground (arith, h) in rw none_left refl

fitting-free :
    (max_new : Option ℕ) (ts : List IngestItem) (x : IngestItem) (xs : List IngestItem)
    → is_full max_new ts ≡ false
    → fitting max_new (length ts) (x ∷ xs) ≡ x ∷ fitting max_new (suc (length ts)) xs
fitting-free none ts x xs h = refl
fitting-free (some cap) ts x xs h =
    let one_left : cap - length ts ≡ suc (cap - suc (length ts)) = ground (arith, h) in
    rw one_left refl

-- What the loop adds to its variables.
record IsTaken (existing : List Key) (max_new : Option ℕ) (b : Batch) (items : List IngestItem)
    (after : Batch) : Type 0 where
  embedded :
      after.to_embed
      ≡ b.to_embed ++ fitting max_new (length b.to_embed) (new_items (b.seen ++ existing) items)
  deferred :
      length after.to_embed + after.deferred
      ≡ length b.to_embed + b.deferred + length (new_items (b.seen ++ existing) items)
  counted :
      length after.to_embed + after.skipped + after.deferred
      ≡ length b.to_embed + b.skipped + b.deferred + length items

known-elem :
    (k : Key) (seen existing : List Key)
    → elem k (seen ++ existing) ≡ (elem k existing || elem k seen)
known-elem k seen existing = ground (arith, any-append (λ x. x == k) seen existing)

module _ (existing : List Key) (max_new : Option ℕ) where
  take_items-IsTaken :
      (b : Batch) (items : List IngestItem)
      → IsTaken existing max_new b items (take_items existing max_new b items)
  unfolding take_items take_item
  take_items-IsTaken b [] = record {
    embedded = rw (fitting-nil max_new (length b.to_embed)) (sym (append-nil b.to_embed));
    deferred = omega arith;
    counted = omega arith;
  }
  take_items-IsTaken b (x ∷ xs) = elim (Bool-cases (elem (key x) existing || elem (key x) b.seen)) [
    | inl known ↦
        let k : elem (key x) (b.seen ++ existing) ≡ true =
          known-elem (key x) b.seen existing ∙ known in
        let rest = take_items-IsTaken (record b { skipped = suc b.skipped }) xs in
        rw known (record {
          embedded = rw k rest.embedded;
          deferred = rw k rest.deferred;
          counted = omega (arith, rest.counted);
        })
    | inr new ↦
        let k : elem (key x) (b.seen ++ existing) ≡ false =
          known-elem (key x) b.seen existing ∙ new in
        elim (Bool-cases (is_full max_new b.to_embed)) [
          | inl full ↦
              let rest =
                take_items-IsTaken (record b { seen = key x ∷ b.seen; deferred = suc b.deferred })
                  xs in
              rw (new, full)
                (record {
                  embedded = rw k (
                      rest.embedded
                      ∙ ap (λ t. b.to_embed ++ t)
                          (fitting-full max_new b.to_embed _ full
                            ∙ sym (fitting-full max_new b.to_embed _ full)));
                  deferred = rw k (omega (arith, rest.deferred));
                  counted = omega (arith, rest.counted);
                })
          | inr free ↦
              let rest =
                take_items-IsTaken
                  (record b { seen = key x ∷ b.seen; to_embed = b.to_embed ++ x ∷ [] }) xs in
              let plus_one : length b.to_embed + 1 ≡ suc (length b.to_embed) = omega arith in
              let longer = length-append b.to_embed (x ∷ []) in
              rw (new, free)
                (record {
                  embedded = rw k (
                      rest.embedded
                      ∙ ap
                          (λ n.
                            (b.to_embed ++ x ∷ [])
                            ++ fitting max_new n (new_items (key x ∷ (b.seen ++ existing)) xs))
                          (longer ∙ plus_one)
                      ∙ append_assoc b.to_embed (x ∷ []) _
                      ∙ ap (λ t. b.to_embed ++ t) (sym (fitting-free max_new b.to_embed x _ free)));
                  deferred = rw k (omega (arith, rest.deferred, longer));
                  counted = omega (arith, rest.counted, longer);
                })
        ]
  ]

-- A batch embeds the first new items, as many as the cap lets through: new are those whose key is
-- neither stored nor a repeat. It counts the other new items as deferred and all the rest as
-- skipped.
pub partition-IsSplit :
    (items : List IngestItem) (existing : List Key) (max_new : Option ℕ)
    → IsSplit items existing max_new (partition items existing max_new)
unfolding partition
partition-IsSplit items existing max_new =
    let t =
      take_items-IsTaken existing max_new
        (record { to_embed = []; seen = []; skipped = 0; deferred = 0 }) items in
    record {
      embedded = t.embedded;
      deferred = omega (arith, t.deferred);
      counted = omega (arith, t.counted);
    }

-- The order of two parts does not matter to membership.
elem-moved : (j k : Key) (ks p : List Key) → elem j (k ∷ (ks ++ p)) ≡ elem j (ks ++ k ∷ p)
elem-moved j k ks p =
    ground (arith, any-append (λ x. x == j) ks p, any-append (λ x. x == j) ks (k ∷ p))

-- Once the first new items of a batch are stored, the new items are the others.
new_items-drop :
    (n : ℕ) (p : List Key) (xs : List IngestItem)
    → new_items (map key (take n (new_items p xs)) ++ p) xs ≡ drop n (new_items p xs)
new_items-drop zero p xs = refl
new_items-drop (suc n) p [] = refl
new_items-drop (suc n) p (x ∷ xs) = elim (Bool-cases (elem (key x) p)) [
  | inl known ↦
      let k : elem (key x) (map key (take (suc n) (new_items p xs)) ++ p) ≡ true =
        any-append (λ y. y == key x) (map key (take (suc n) (new_items p xs))) p
        ∙ or_right _ _ known in
      rw (known, k) (new_items-drop (suc n) p xs)
  | inr new ↦
      rw (new, ==_refl (key x))
        (new_items-same _ _ xs
            (λ j. elem-moved j (key x) (map key (take n (new_items (key x ∷ p) xs))) p)
          ∙ new_items-drop n (key x ∷ p) xs)
]

-- A caller that sends a bounded batch again, once what it embedded is stored, embeds the next new
-- items in order: bounded batches drain a backlog and embed no item twice.
pub partition-resent :
    (items : List IngestItem) (existing : List Key) (limit : ℕ) (max_new : Option ℕ)
    → let before = partition items existing (some limit) in
      (partition items (map key before.to_embed ++ existing) max_new).to_embed
      ≡ fitting max_new 0 (drop limit (new_items existing items))
partition-resent items existing limit max_new =
    let first = partition-IsSplit items existing (some limit) in
    let whole : limit - 0 ≡ limit = omega arith in
    rw (first.embedded, whole)
      ((partition-IsSplit items (map key (take limit (new_items existing items)) ++ existing)
          max_new).embedded
        ∙ ap (fitting max_new 0) (new_items-drop limit existing items))
