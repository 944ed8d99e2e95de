-- ===== src/Ledger/Fixtures.antt =====
-- A lane with an open, a fixed and a rejected finding, and a round on it, for the examples.
use fuko_pr.Prelude.{ℕ, ◌+◌, String, text_eq, refl, true, false, none, some, [], ◌∷◌}
use fuko_pr.Ledger.Rows.{Lane, Status, opened, fixed, rejected, FindingRow, Db, Env, uuid}
use fuko_pr.Ledger.Writes.{Finding}
use fuko_pr.Ledger.Reads.{PriorFinding}
use fuko_pr.Ledger.Prior.{prior_id_eq, minted}
use fuko_pr.Ledger.Coverage.{paths}
use fuko_pr.Ledger.Tree.{Tree, present}
use fuko_pr.Ledger.Carry.{CarryArgs, CarriedState}
use fuko_pr.Ledger.Settle.{SettleArgs}
use fuko_pr.Ledger.Window.{Serves}

abbrev pub a_lane : Lane
a_lane = record { repo = "owner/app"; pr = 7; seat = "dorian" }

abbrev pub a_neighbour : Lane
a_neighbour = record { repo = "owner/app"; pr = 7; seat = "basil" }

abbrev pub an_env : Env
an_env = record { enabled = true; up = λ n. true; clock = λ n. 1000 + n; uuid = λ n. n }

abbrev pub no_fold : String → String
no_fold s = s

abbrev pub a_row : ℕ → String → Status → FindingRow
a_row n title status = record {
  id = n;
  lane = a_lane;
  round = 1;
  head_sha = "abc";
  file = "a.py";
  line = some 3;
  severity = "high";
  category = "bug";
  title = title;
  body = "b";
  evidence = "";
  status = status;
  status_reason = "";
  created_at = 900;
  updated_at = 900;
  reopened = 0;
}

abbrev pub a_db : Db
a_db = record {
  findings = a_row 0 "leak" fixed ∷ a_row 1 "race" opened ∷ a_row 2 "slow" rejected ∷ [];
  coverage = [];
  calls = 0;
  minted = 3;
}

abbrev pub a_finding : String → Finding
a_finding title = record {
  file = "a.py";
  line = none;
  severity = "high";
  category = "bug";
  title = title;
  body = "b";
  evidence = "";
}

abbrev pub a_tree : Tree
a_tree = record {
  is_dir = true;
  real_root = some "/w";
  real_parent = λ p. some "/w";
  lstat = λ p. present;
}

abbrev pub a_carry : CarryArgs
a_carry = record {
  tree = a_tree;
  head_sha = "def";
  touched_files = paths [];
  coverage_ledger = false;
  findings_ledger = true;
}

abbrev pub a_round : SettleArgs
a_round = record {
  head_sha = "def";
  prior_status = record { id = minted 9; status = "fixed"; reason = "" } ∷ [];
  findings = a_finding "leak" ∷ a_finding "race" ∷ a_finding "new" ∷ [];
  examined = [];
  coverage_ledger = false;
  findings_ledger = true;
}

abbrev pub a_prior : PriorFinding
a_prior = record {
  file = "a.py";
  title = "race";
  body = "b";
  line = some 3;
  severity = "high";
  category = "bug";
  round = 1;
  evidence = "";
}

abbrev pub a_carried : CarriedState
a_carried = record {
  state = record { ids = (minted 1, a_prior) ∷ []; shown = []; dropped = 0 };
  rows = (minted 1, uuid 1) ∷ [];
  round = 2;
  truncated = 0;
  coverage = 0;
  expired = 0;
}

abbrev pub still_here : SettleArgs
still_here = record a_round {
  prior_status =
      record { id = minted 9; status = "fixed"; reason = "" }
      ∷ record { id = minted 1; status = "rejected"; reason = " " }
      ∷ [];
}

abbrev pub reject : String
reject = "rejected"

abbrev pub served : Serves an_env a_db
served = record { enabled = refl; up = refl }

abbrev pub off_round : SettleArgs
off_round = record a_round { findings_ledger = false }

abbrev pub off_carry : CarryArgs
off_carry = record a_carry { findings_ledger = false }

abbrev pub bare_carry : CarryArgs
bare_carry = record a_carry { tree = record a_tree { is_dir = false } }

abbrev pub covered_db : Db
covered_db = record a_db {
  coverage =
      record {
        id = 8;
        lane = a_lane;
        round = 1;
        head_sha = "abc";
        file = "a.py";
        region = "f";
        checked = "c";
        conclusion = "d";
        evidence = "e";
        created_at = 900;
        expired_at = none;
      }
      ∷ [];
}
