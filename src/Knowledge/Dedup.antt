-- ===== src/Knowledge/Dedup.antt =====
-- sidecar/dedup.py, `partition`: which items of a batch are embedded.
use fuko_pr.Prelude.{
  ℕ, suc, String, Bool, false, ◌||◌, Option, none, some, List, [], ◌∷◌, ◌++◌, leb, length, elem,
  text_eq, pair_eq, if◌then◌else◌,
}

-- IngestItem
pub record IngestItem : Type 0 where
  pub text : String
  pub source : String
  pub source_url : Option String
  pub file_globs : List String
  pub topic : Option String
  pub origin_user : Option String
  pub expires_at : Option String

abbrev pub Key : Type 0
Key = String × String

abbrev pub key : IngestItem → Key
key item = (item.text, item.source)

-- `max_new is not None and len(to_embed) >= max_new`
abbrev pub is_full : Option ℕ → List IngestItem → Bool
is_full none to_embed = false
is_full (some cap) to_embed = leb cap (length to_embed)

-- The variables of the loop.
pub record Batch : Type 0 where
  pub to_embed : List IngestItem
  pub seen : List Key
  pub skipped : ℕ
  pub deferred : ℕ

unfoldable pub take_item : List Key → Option ℕ → Batch → IngestItem → Batch
take_item existing max_new b item =
    let skip = record b { skipped = suc b.skipped } in
    let defer = record b { seen = key item ∷ b.seen; deferred = suc b.deferred } in
    let embed = record b { seen = key item ∷ b.seen; to_embed = b.to_embed ++ item ∷ [] } in
    if elem (key item) existing || elem (key item) b.seen
    then skip
    else (if is_full max_new b.to_embed then defer else embed)

unfoldable pub take_items : List Key → Option ℕ → Batch → List IngestItem → Batch
unfolding take_item
take_items existing max_new b [] = b
take_items existing max_new b (item ∷ items) =
    take_items existing max_new (take_item existing max_new b item) items

-- `partition`
unfoldable pub partition : List IngestItem → List Key → Option ℕ → Batch
unfolding take_items
partition items existing max_new =
    take_items existing max_new (record { to_embed = []; seen = []; skipped = 0; deferred = 0 })
      items
