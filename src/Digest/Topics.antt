-- ===== src/Digest/Topics.antt =====
-- The topic of an index names its file (`topic_for`, `topic_path` of sidecar/digest.py).
use fuko_pr.Prelude.{
  ℕ, String, ◌<+>◌, ◌≡◌, ◌≢◌, refl, ap, ◌∙◌, Bool, true, false, none, some, arith, ◌==◌, ==_iff,
  nat_eq, text_eq, starts_with-append, drop_text-append, free_of, cons_full,
}
use Prim.Native.Char.{code}
use text.Mathlib.TextLemmas.{nil-append, cons-append}
use fuko_pr.Digest.Index.{topic_prefix, topic_for, before_last_at, topic_path}

abbrev pub is_at : ℕ → Bool
is_at c = c == 64

before_last_at-free_of : (s : String) → free_of is_at s ≡ true → before_last_at s ≡ none
unfolding before_last_at free_of
before_last_at-free_of String.[] h = refl
before_last_at-free_of (String.◌∷◌ c s) h =
    let rest = before_last_at-free_of s (ground (arith, h)) in
    let plain : code c == 64 ≡ false = ground (arith, h) in rw (rest, plain) refl

before_last_at-append :
    (p s : String) → free_of is_at s ≡ true → before_last_at (p <+> String.◌∷◌ "@" s) ≡ some p
unfolding before_last_at
before_last_at-append String.[] s h =
    rw (nil-append (String.◌∷◌ "@" s), before_last_at-free_of s h) refl
before_last_at-append (String.◌∷◌ c p) s h =
    let ih = before_last_at-append p s h in
    ap before_last_at (cons-append c p (String.◌∷◌ "@" s)) ∙ rw (ih, before_last_at) refl

-- The path of a file that is not empty is read back from the topic of its index, whatever the path
-- holds, if no `@` stands in the hash.
pub topic_path-topic_for :
    (path digest_hash : String)
    → path ≢ ""
    → free_of is_at digest_hash ≡ true
    → topic_path (some (topic_for path digest_hash)) ≡ some path
unfolding topic_path
topic_path-topic_for path digest_hash named plain =
    let rest = path <+> ("@" <+> digest_hash) in
    let at : "@" <+> digest_hash ≡ String.◌∷◌ "@" digest_hash =
      cons-append "@" "" digest_hash ∙ ap (λ t. String.◌∷◌ "@" t) (nil-append digest_hash) in
    let read : before_last_at rest ≡ some path =
      ap (λ t. before_last_at (path <+> t)) at ∙ before_last_at-append path digest_hash plain in
    let full : (topic_for path digest_hash == "") ≡ false =
      ap (λ t. t == "") (cons-append "f" "ile-index:" rest) ∙ cons_full "f" _ in
    let named' : (path == "") ≡ false = ground (arith, named, ==_iff path "") in
    rw
      (full, starts_with-append topic_prefix rest, drop_text-append topic_prefix rest, read, named')
      refl
