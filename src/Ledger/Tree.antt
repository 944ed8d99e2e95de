-- ===== src/Ledger/Tree.antt =====
-- sidecar/reviewer/ledger.py, what a round asks of the checkout: `_within_checkout`, `_is_gone`
-- and `_tree_root`.
use Prim.Native.Char.{code}
use text.Mathlib.Text.{starts_with}
use fuko_pr.Prelude.{
  String, Bool, true, false, ◌||◌, Option, none, some, List, [], ◌∷◌, ◌<+>◌, ◌==◌, nat_eq, text_eq,
  if◌then◌else◌,
}

-- What the file system says of one path.
pub data Stat : Type 0 where
  present missing unreadable : Stat

-- The checkout as the file system shows it: whether a root is given and is a directory, its path
-- with links resolved, and, for a path below it, its parent resolved and its own `lstat`. `none`
-- is an OSError or a ValueError.
pub record Tree : Type 0 where
  pub is_dir : Bool
  pub real_root : Option String
  pub real_parent : String → Option String
  pub lstat : String → Stat

-- The parts of a path between its slashes.
unfoldable pub split_path : String → List String
split_path String.[] = "" ∷ []
split_path (String.◌∷◌ c s) = elim (split_path s) [
  | [] ↦ []
  | p ∷ ps ↦ if code c == b'/' then "" ∷ p ∷ ps else (String.◌∷◌ c p) ∷ ps
]

unfoldable pub join_path : List String → String
join_path [] = ""
join_path (p ∷ ps) = elim ps [ [] ↦ p | q ∷ qs ↦ p <+> ("/" <+> join_path ps) ]

-- One part of a relative path, over the parts kept so far, the last one first.
unfoldable pub norm_part : List String → String → List String
norm_part kept part =
    if (part == "") || (part == ".")
    then kept
    else if part == ".."
    then elim kept [
      | [] ↦ part ∷ []
      | top ∷ below ↦ if top == ".." then part ∷ top ∷ below else below
    ]
    else part ∷ kept

unfoldable pub norm_parts : List String → List String → List String
unfolding norm_part
norm_parts kept [] = kept
norm_parts kept (p ∷ ps) = norm_parts (norm_part kept p) ps

reverse_onto : List String → List String → List String
reverse_onto out [] = out
reverse_onto out (p ∷ ps) = reverse_onto (p ∷ out) ps

-- `os.path.normpath` of a relative path
unfoldable pub normpath : String → String
unfolding split_path norm_parts join_path reverse_onto
normpath rel =
    let path = join_path (reverse_onto [] (norm_parts [] (split_path rel))) in
    if path == "" then "." else path

unfoldable pub has_nul : String → Bool
has_nul String.[] = false
has_nul (String.◌∷◌ c s) = (code c == 0) || has_nul s

-- `_within_checkout`: the path below the root, or `none` if it does not stay there.
unfoldable pub within_checkout : String → Option String
unfolding normpath has_nul
within_checkout rel =
    if (rel == "") || (starts_with rel "/" || has_nul rel)
    then none
    else let normalized = normpath rel in
      if (normalized == "..") || (starts_with normalized "../" || starts_with normalized "..\\")
      then none
      else some normalized

-- The tests of `_is_gone` on a path that stays below the root.
unfoldable pub is_gone_at : Tree → String → String → Bool
is_gone_at tree root target = elim (tree.real_parent target) [
  | none ↦ false
  | some parent ↦
      if (parent == root) || starts_with parent (root <+> "/")
      then elim (tree.lstat target) [ missing ↦ true | _ ↦ false ]
      else false
]

-- `_is_gone`: only a path below the root whose `lstat` finds nothing is gone.
unfoldable pub is_gone : Tree → String → String → Bool
unfolding within_checkout is_gone_at
is_gone tree root rel = elim (within_checkout rel) [
  | none ↦ false
  | some target ↦ is_gone_at tree root target
]

-- `_tree_root`: the resolved root, or `none` when the tree cannot be judged.
unfoldable pub tree_root : Tree → Option String
tree_root tree = if tree.is_dir then tree.real_root else none
