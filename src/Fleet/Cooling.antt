-- ===== src/Fleet/Cooling.antt =====
-- A tripped breaker is open until its cooldown ends (sidecar/circuit_breaker.py).
use fuko_pr.Prelude.{
  ℕ, ◌+◌, ◌<◌, max, String, ◌≡◌, refl, ◌∙◌, sym, ap, subst, Bool, true, false, ◌&&◌, ◌||◌, Option,
  none, some, List, [], ◌∷◌, arith, ltb, map, elem, nodup, get, put, get-put, All, ◌==◌, ==_iff,
  ==_refl, text_eq, if◌then◌else◌, Bool-cases, inl, inr,
}
use fuko_pr.Fleet.Failover.{Trip}
use fuko_pr.Fleet.Breaker.{
  Cooldown, Cooldowns, Call, open_rows, get_cooldowns, cb_cooldowns, upsert, cb_trip, cb_trips,
}

-- provider TEXT PRIMARY KEY
abbrev pub keys : Cooldowns → List String
keys rows = map (λ e. e.0) rows

abbrev is_open_at : ℕ → Option Cooldown → Bool
is_open_at now none = false
is_open_at now (some c) = ltb now c.until

open_keys :
    (now : ℕ) (rows : Cooldowns) (q : String)
    → elem q (keys rows) ≡ false
    → elem q (map (λ e. e.0) (open_rows now rows)) ≡ false
unfolding open_rows
open_keys now [] q h = refl
open_keys now ((p, c) ∷ rows) q h = ground (arith, open_keys now rows q)

elem-open_rows :
    (now : ℕ) (rows : Cooldowns) (q : String)
    → nodup (keys rows) ≡ true
    → elem q (map (λ e. e.0) (open_rows now rows)) ≡ is_open_at now (get rows q)
unfolding open_rows get
elem-open_rows now [] q u = refl
elem-open_rows now ((p, c) ∷ rows) q u = elim (Bool-cases (p == q)) [
  | inl same ↦
      let e : p ≡ q = (==_iff p q).0 same in
      let gone : elem q (keys rows) ≡ false =
        subst (λ x. elem x (keys rows) ≡ false) e (ground (arith, u)) in
      rw same (elim (Bool-cases (ltb now c.until)) [
        | inl open_ ↦ rw (open_, same) refl
        | inr over ↦ rw over (open_keys now rows q gone)
      ])
  | inr other ↦ rw other (elim (Bool-cases (ltb now c.until)) [
    | inl open_ ↦ rw (open_, other) (elem-open_rows now rows q (ground (arith, u)))
    | inr over ↦ rw over (elem-open_rows now rows q (ground (arith, u)))
  ])
]

elem-put :
    (rows : Cooldowns) (p q : String) (c : Cooldown)
    → elem q (keys (put rows p c)) ≡ ((p == q) || elem q (keys rows))
unfolding put
elem-put [] p q c = refl
elem-put ((o, d) ∷ rows) p q c =
    ground (arith, elem-put rows p q c, ==_iff o p, ==_iff o q, ==_iff p q)

nodup-put :
    (rows : Cooldowns) (p : String) (c : Cooldown)
    → nodup (keys rows) ≡ true
    → nodup (keys (put rows p c)) ≡ true
unfolding put
nodup-put [] p c u = refl
nodup-put ((o, d) ∷ rows) p c u =
    ground (arith, u, nodup-put rows p c, elem-put rows p o c, ==_iff p o, ==_iff o p)

-- A call that is made.
abbrev pub IsMade : Call → Type 0
IsMade call = (call.enabled && call.served) ≡ true

cb_cooldowns-open :
    (later : Call) (rows : Cooldowns) (q : String)
    → nodup (keys rows) ≡ true
    → IsMade later
    → elem q (cb_cooldowns later rows) ≡ is_open_at later.db_now (get rows q)
unfolding cb_cooldowns get_cooldowns
cb_cooldowns-open later rows q u k =
    let enabled : later.enabled ≡ true = ground (arith, k) in
    let served : later.served ≡ true = ground (arith, k) in
    rw (enabled, served) (elem-open_rows later.db_now rows q u)

cb_trip-nodup :
    (call : Call) (t : Trip) (rows : Cooldowns)
    → nodup (keys rows) ≡ true
    → nodup (keys (cb_trip call t rows)) ≡ true
unfolding cb_trip upsert
cb_trip-nodup call t rows u = elim (Bool-cases (call.enabled && call.served)) [
  | inl made ↦ rw made (nodup-put rows t.provider _ u)
  | inr lost ↦ rw lost u
]

cb_trip-open :
    (call : Call) (t : Trip) (rows : Cooldowns) (now : ℕ) (q : String)
    → IsMade call
    → is_open_at now (get (cb_trip call t rows) q) ≡ (
        if t.provider == q
        then ltb now (call.now + max 1 t.cooldown_seconds)
        else is_open_at now (get rows q))
unfolding cb_trip upsert
cb_trip-open call t rows now q s =
    rw (s, get-put)
      (elim (Bool-cases (t.provider == q)) [ inl same ↦ rw same refl | inr other ↦ rw other refl ])

-- Who is in cooldown at a time after a trip that reaches the store: its provider until the end of
-- the cooldown, which is a second at least, and of the others whoever was.
pub cb_trip-cooled :
    (call later : Call) (t : Trip) (rows : Cooldowns) (q : String)
    → nodup (keys rows) ≡ true
    → IsMade call
    → IsMade later
    → elem q (cb_cooldowns later (cb_trip call t rows)) ≡ (
        if t.provider == q
        then ltb later.db_now (call.now + max 1 t.cooldown_seconds)
        else elem q (cb_cooldowns later rows))
cb_trip-cooled call later t rows q u s k =
    cb_cooldowns-open later (cb_trip call t rows) q (cb_trip-nodup call t rows u) k
    ∙ cb_trip-open call t rows later.db_now q s
    ∙ ap
        (λ b. if t.provider == q then ltb later.db_now (call.now + max 1 t.cooldown_seconds) else b)
        (sym (cb_cooldowns-open later rows q u k))

-- A trip reaches the store and its cooldown has not ended at a time.
abbrev pub Lasts : Call → Call × Trip → Type 0
Lasts later e = IsMade e.0 × (later.db_now < e.0.now + max 1 e.1.cooldown_seconds)

module _ (later : Call) (made : IsMade later) where
  cooled-stays :
      (call : Call) (t : Trip) (rows : Cooldowns) (q : String)
      → nodup (keys rows) ≡ true
      → Lasts later (call, t)
      → elem q (cb_cooldowns later rows) ≡ true
      → elem q (cb_cooldowns later (cb_trip call t rows)) ≡ true
  cooled-stays call t rows q u l h =
      cb_trip-cooled call later t rows q u l.0 made ∙ elim (Bool-cases (t.provider == q)) [
        | inl same ↦ rw same (ground (arith, l.1))
        | inr other ↦ rw other h
      ]

  tripped-cooled :
      (call : Call) (t : Trip) (rows : Cooldowns)
      → nodup (keys rows) ≡ true
      → Lasts later (call, t)
      → elem t.provider (cb_cooldowns later (cb_trip call t rows)) ≡ true
  tripped-cooled call t rows u l =
      cb_trip-cooled call later t rows t.provider u l.0 made
      ∙ rw (==_refl t.provider) (ground (arith, l.1))

  trips-stay :
      (ts : List (Call × Trip)) (rows : Cooldowns) (q : String)
      → nodup (keys rows) ≡ true
      → All (Lasts later) ts
      → elem q (cb_cooldowns later rows) ≡ true
      → elem q (cb_cooldowns later (cb_trips ts rows)) ≡ true
  unfolding cb_trips
  trips-stay [] rows q u l h = h
  trips-stay ((call, t) ∷ ts) rows q u l h =
      trips-stay ts (cb_trip call t rows) q (cb_trip-nodup call t rows u) l.1
        (cooled-stays call t rows q u l.0 h)

  -- Every provider that a failover tripped is in cooldown for a read at a time before the ends of
  -- the cooldowns, in whatever order and however often the providers were tripped.
  pub cb_trips-cooled :
      (ts : List (Call × Trip)) (rows : Cooldowns)
      → nodup (keys rows) ≡ true
      → All (Lasts later) ts
      → All
          (λ (e : Call × Trip). elem e.1.provider (cb_cooldowns later (cb_trips ts rows)) ≡ true)
          ts
  unfolding cb_trips
  cb_trips-cooled [] rows u l = tt
  cb_trips-cooled ((call, t) ∷ ts) rows u l = (
    trips-stay ts (cb_trip call t rows) t.provider (cb_trip-nodup call t rows u) l.1
        (tripped-cooled call t rows u l.0),
    cb_trips-cooled ts (cb_trip call t rows) (cb_trip-nodup call t rows u) l.1,
  )
