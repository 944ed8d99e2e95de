-- ===== src/Ledger/NoLoss.antt =====
-- The matching pass of `settle` (sidecar/reviewer/ledger.py): what it does with each published
-- finding.
use fuko_pr.Prelude.{
  ℕ, String, ◌≡◌, refl, ◌∙◌, ◌⊎◌, inl, inr, Bool, true, false, Option, none, some, List, [], ◌∷◌,
  arith, All, get, put, remove, get-put, get-remove, is_some, ◌==◌, ==_iff, ==_refl, text_eq,
  pair_eq, if◌then◌else◌, Bool-cases,
}
use fuko_pr.Ledger.Rows.{Lane, Db, Env, FindingId, uuid, clip}
use fuko_pr.Ledger.Actions.{◌>>=◌, pure}
use fuko_pr.Ledger.Writes.{Finding, reopen}
use fuko_pr.Ledger.Reads.{SettledFinding}
use fuko_pr.Ledger.Claims.{Anchor, claim_anchor, reopen_reason}
use fuko_pr.Ledger.Settle.{Matching, raise_claim, match_claim, match_finding, match_findings}
use fuko_pr.Ledger.OpenRows.{HasOpen, IdClaims, reopen-HasOpen, reopen-IdClaims, reopen-raises}

-- The store keeps the file and the title of a finding whole.
abbrev pub Fits : Finding → Type 0
Fits f = (clip f.file ≡ f.file) × (clip f.title ≡ f.title)

module _ (casefold : String → String) (lane : Lane) where
  abbrev pub anchor_of : Finding → Anchor
  anchor_of f = claim_anchor casefold f.file f.title

  -- A fresh entry is a finding of its claim, which the store keeps whole.
  abbrev pub FreshEntry : Anchor × Finding → Type 0
  FreshEntry e = (e.0 ≡ anchor_of e.1) × Fits e.1

  -- What the variables of the loop mean.
  pub record Matched (db : Db) (m : Matching) : Type 0 where
    pub is_open :
        (a : Anchor) (id : FindingId) → get m.still_open a ≡ some id → HasOpen casefold lane a db
    pub is_closed :
        (a : Anchor) (r : SettledFinding)
        → get m.candidates a ≡ some r
        → (n : ℕ) × (r.id ≡ uuid n) × IdClaims casefold lane n a db
    pub entries : All FreshEntry m.fresh

  -- The claim of a finding has an open row, or will be recorded.
  abbrev pub Held : Db → Matching → Anchor → Type 0
  Held db m a = HasOpen casefold lane a db ⊎ (is_some (get m.fresh a) ≡ true)

  -- One round of the loop keeps their meaning, holds its finding and lets go of none.
  pub record MatchStep (a : Anchor) (db : Db) (m : Matching) (db' : Db) (m' : Matching)
      : Type 0 where
    pub matched : Matched db' m'
    pub holds : Held db' m' a
    pub held : (b : Anchor) → Held db m b → Held db' m' b

  All-put :
      (d : List (Anchor × Finding)) (a : Anchor) (f : Finding)
      → FreshEntry (a, f)
      → All FreshEntry d
      → All FreshEntry (put d a f)
  unfolding put
  All-put [] a f h k = (h, tt)
  All-put ((b, g) ∷ d) a f h k = branch (b == a) refl (All-put d a f h k.1)
    where
      branch :
          (t : Bool)
          → (b == a) ≡ t
          → All FreshEntry (put d a f)
          → All FreshEntry (if t then (b, f) ∷ d else (b, g) ∷ put d a f)
      branch true e rest = (((==_iff b a).0 e ∙ h.0, h.1), k.1)
      branch false e rest = (k.0, rest)

  fresh-put :
      (m : Matching) (a b : Anchor) (f : Finding)
      → is_some (get m.fresh b) ≡ true
      → is_some (get (put m.fresh a f) b) ≡ true
  fresh-put m a b f h = rw (get-put m.fresh a b f) (ground (arith, ==_iff a b))

  fresh-put_self :
      (m : Matching) (a : Anchor) (f : Finding) → is_some (get (put m.fresh a f) a) ≡ true
  fresh-put_self m a f = rw (get-put m.fresh a a f, ==_refl a)

  -- The finding becomes fresh.
  becomes_fresh :
      (a : Anchor) (f : Finding) (db db' : Db) (m m' : Matching)
      → FreshEntry (a, f)
      → Matched db' m'
      → m'.fresh ≡ m.fresh
      → ((b : Anchor) → HasOpen casefold lane b db → HasOpen casefold lane b db')
      → MatchStep a db m db' (record m' { fresh = put m.fresh a f })
  becomes_fresh a f db db' m m' entry h same keep = record {
    matched = record {
      is_open = h.is_open;
      is_closed = h.is_closed;
      entries = All-put m.fresh a f entry (rw same at h.entries);
    };
    holds = inr (fresh-put_self m a f);
    held = λ b k. elim k [ inl o ↦ inl (keep b o) | inr i ↦ inr (fresh-put m a b f i) ];
  }

  module _ (env : Env) (round : ℕ) where
    -- The candidates that are left after a reopening still name the rows of their claims.
    left_candidates :
        (m : Matching) (a : Anchor) (id : FindingId) (reason : String) (db : Db)
        → Matched db m
        → (b : Anchor) (r : SettledFinding) → get (remove m.candidates a) b ≡ some r
        → (n : ℕ) × (r.id ≡ uuid n) × IdClaims casefold lane n b (reopen env lane id reason db).1
    left_candidates m a id reason db h b r e =
        let e' : get m.candidates b ≡ some r = ground (arith, get-remove m.candidates a b) in
        let (n, is, claims) = h.is_closed b r e' in
        (n, is, (reopen-IdClaims casefold lane env n b id reason).at db claims)

    -- A closed row of the claim is open again.
    raised :
        (m : Matching) (a : Anchor) (row : SettledFinding) (reason : String) (lines : List String)
        (db : Db)
        → get m.candidates a ≡ some row
        → Matched db m
        → (reopen env lane row.id reason db).0 ≡ true
        → MatchStep a db m (reopen env lane row.id reason db).1 (record m {
          candidates = remove m.candidates a;
          reopened = lines;
          still_open = put m.still_open a row.id;
        })
    raised m a row reason lines db e h changed =
        let (n, is, claims) = h.is_closed a row e in
        let now_open : HasOpen casefold lane a (reopen env lane row.id reason db).1 =
          rw is (reopen-raises casefold lane env n a reason db claims (rw is at changed)) in
        let keep = λ (b : Anchor). (reopen-HasOpen casefold lane env b row.id reason).at db in
        record {
          matched = record {
            is_open = λ b id g. elim (Bool-cases (a == b)) [
              | inl same ↦ rw (← (==_iff a b).0 same) now_open
              | inr apart ↦
                  keep b (h.is_open b id (ground (arith, get-put m.still_open a b row.id)))
            ];
            is_closed = left_candidates m a row.id reason db h;
            entries = h.entries;
          };
          holds = inl now_open;
          held = λ b k. elim k [ inl o ↦ inl (keep b o) | inr i ↦ inr i ];
        }

    raise-MatchStep :
        (m : Matching) (a : Anchor) (f : Finding) (db : Db) (row : Option SettledFinding)
        → get m.candidates a ≡ row
        → FreshEntry (a, f)
        → Matched db m
        → MatchStep a db m
            (raise_claim env lane round m a f row db).1
            (raise_claim env lane round m a f row db).0
    unfolding raise_claim pure ◌>>=◌
    raise-MatchStep m a f db none e entry h = becomes_fresh a f db db m m entry h refl (λ b k. k)
    raise-MatchStep m a f db (some row) e entry h =
        let reason = reopen_reason row round in
        let after = reopen env lane row.id reason db in
        let keep = λ (b : Anchor). (reopen-HasOpen casefold lane env b row.id reason).at db in
        elim (Bool-cases after.0) [
          | inl changed ↦ rw changed (raised m a row reason _ db e h changed)
          | inr unchanged ↦ rw unchanged (
              becomes_fresh a f db after.1 m (record m { candidates = remove m.candidates a }) entry
                (record {
                  is_open = λ b id g. keep b (h.is_open b id g);
                  is_closed = left_candidates m a row.id reason db h;
                  entries = h.entries;
                })
                refl keep)
        ]

    claim-MatchStep :
        (m : Matching) (a : Anchor) (f : Finding) (db : Db) (row : Option FindingId)
        → get m.still_open a ≡ row
        → FreshEntry (a, f)
        → Matched db m
        → MatchStep a db m
            (match_claim env lane round m a f row db).1
            (match_claim env lane round m a f row db).0
    unfolding match_claim pure
    claim-MatchStep m a f db (some id) e entry h = record {
      matched = record { is_open = h.is_open; is_closed = h.is_closed; entries = h.entries };
      holds = inl (h.is_open a id e);
      held = λ b k. k;
    }
    claim-MatchStep m a f db none e entry h = elim (Bool-cases (is_some (get m.fresh a))) [
      | inl twin ↦ rw twin (record {
        matched = record { is_open = h.is_open; is_closed = h.is_closed; entries = h.entries };
        holds = inr twin;
        held = λ b k. k;
      })
      | inr new ↦ rw new (raise-MatchStep m a f db (get m.candidates a) refl entry h)
    ]

    finding-MatchStep :
        (m : Matching) (f : Finding) (db : Db)
        → Fits f
        → Matched db m
        → MatchStep
            (anchor_of f)
            db
            m
            (match_finding casefold env lane round m f db).1
            (match_finding casefold env lane round m f db).0
    unfolding match_finding
    finding-MatchStep m f db fits h =
        claim-MatchStep m (anchor_of f) f db (get m.still_open (anchor_of f)) refl (refl, fits) h

    -- The whole loop holds the claim of every published finding.
    pub match_findings-Held :
        (m : Matching) (fs : List Finding) (db : Db)
        → All Fits fs
        → Matched db m
        → let after = match_findings casefold env lane round m fs db in
          Matched after.1 after.0
          × ((a : Anchor) → Held db m a → Held after.1 after.0 a)
          × All (λ f. Held after.1 after.0 (anchor_of f)) fs
    unfolding match_findings pure ◌>>=◌
    match_findings-Held m [] db fits h = (h, λ a k. k, tt)
    match_findings-Held m (f ∷ fs) db fits h =
        let step = finding-MatchStep m f db fits.0 h in
        let next = match_finding casefold env lane round m f db in
        let (matched, held, holds) = match_findings-Held next.0 fs next.1 fits.1 step.matched in
        (matched, λ a k. held a (step.held a k), (held (anchor_of f) step.holds, holds))
