-- ===== src/Ledger/Claims.antt =====
-- sidecar/reviewer/ledger.py, the claim that a finding makes: `claim_anchor`, and the
-- closed rows on a claim. `casefold` is `str.casefold`, a table of the Unicode standard.
use fuko_pr.Prelude.{
  ℕ, String, ◌≡◌, ◌↔◌, Bool, true, false, List, [], ◌∷◌, ◌<+>◌, arith, strip, has_text, decimal,
  set_default, ◌==◌, ==_iff, Eq, nat_eq, text_eq, pair_eq, if◌then◌else◌,
}
use fuko_pr.Ledger.Rows.{Lane, Env, FindingId, uuid, malformed, status_text, max_settled_findings}
use fuko_pr.Ledger.Actions.{Action, ◌>>=◌, pure}
use fuko_pr.Ledger.Reads.{SettledFinding, settled_findings}
use fuko_pr.Ledger.Prior.{prior_id_eq}

abbrev pub same_finding_id : FindingId → FindingId → Bool
same_finding_id (uuid n) (uuid m) = n == m
same_finding_id (uuid n) (malformed s) = false
same_finding_id (malformed s) (uuid n) = false
same_finding_id (malformed s) (malformed t) = s == t

pub same_finding_id_iff : (a b : FindingId) → (same_finding_id a b ≡ true) ↔ (a ≡ b)
same_finding_id_iff (uuid n) (uuid m) = ground (arith, ==_iff n m)
same_finding_id_iff (uuid n) (malformed s) = ground arith
same_finding_id_iff (malformed s) (uuid n) = ground arith
same_finding_id_iff (malformed s) (malformed t) = ground (arith, ==_iff s t)

instance abbrev pub finding_id_eq : Eq FindingId
finding_id_eq = record { same = same_finding_id; decides = same_finding_id_iff }

-- What two findings on one claim share: the file and the title.
abbrev pub Anchor : Type 0
Anchor = String × String

-- `claim_anchor`
unfoldable pub claim_anchor : (String → String) → String → String → Anchor
claim_anchor casefold file title = (strip file, casefold (strip title))

-- `_reopen_reason`
unfoldable pub reopen_reason : SettledFinding → ℕ → String
reopen_reason row round =
    let line =
      "re-raised in round "
      <+> decimal round
      <+> ": an independent finding contradicts "
      <+> status_text row.status
      <+> ", on a finding recorded in round "
      <+> decimal row.round in
    if has_text row.reason then line <+> "; the closure stated: " <+> strip row.reason else line

unfoldable pub candidates_from :
    (String → String)
    → List (Anchor × SettledFinding)
    → List SettledFinding
    → List (Anchor × SettledFinding)
candidates_from casefold out [] = out
candidates_from casefold out (r ∷ rs) =
    candidates_from casefold (set_default out (claim_anchor casefold r.file r.title) r) rs

-- `_reopen_candidates`: closed rows by claim, the most recent closure of a claim first.
unfoldable pub reopen_candidates :
    (String → String) → Env → Lane → Action (List (Anchor × SettledFinding))
unfolding candidates_from
reopen_candidates casefold env lane = do
  rows ← settled_findings env lane max_settled_findings
  pure (candidates_from casefold [] rows)
