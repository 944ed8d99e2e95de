-- ===== src/Knowledge/ChunkBounds.antt =====
-- The length of the chunks of sidecar/chunking.py, and that its loops end.
use fuko_pr.Prelude.{
  length-take_text, length-drop_text, ℕ, zero, suc, ◌+◌, ◌≤◌, ◌<◌, String, List, [], ◌∷◌, arith,
  ltb, leb, ◌==◌, text_eq, All, All-append, drop_text, text_length, Bool-cases, inl, inr,
}
use text.Mathlib.TextLemmas.{length-nil}
use fuko_pr.Knowledge.Chunks.{
  Turn, cut, join_paragraph, fill, or_front, split_blank, split_paragraphs,
}

module _ (max_len : ℕ) (some_room : 1 ≤ max_len) where
  abbrev IsShort : String → Type 0
  IsShort s = text_length s ≤ max_len

  abbrev AllShort : Turn → Type 0
  AllShort t = All IsShort t.out × IsShort t.cur

  cut-AllShort :
      (fuel : ℕ) (cur : String) → text_length cur < fuel → AllShort (cut fuel max_len cur)
  unfolding cut
  cut-AllShort zero cur h = absurd (omega (arith, h))
  cut-AllShort (suc fuel) cur h = elim (Bool-cases (ltb max_len (text_length cur))) [
    | inl long ↦
        let over : max_len < text_length cur = ground (arith, long) in
        let rest =
          cut-AllShort fuel (drop_text max_len cur)
            (omega (arith, over, h, some_room, length-drop_text max_len cur)) in
        rw long ((omega (arith, length-take_text max_len cur), rest.0), rest.1)
    | inr short ↦ rw short (tt, ground (arith, short))
  ]

  join-out : (cur para : String) → IsShort cur → All IsShort (join_paragraph max_len cur para).out
  unfolding join_paragraph
  join-out cur para h = elim (Bool-cases (cur == "")) [
    | inl empty ↦ rw empty tt
    | inr full ↦ elim (Bool-cases (leb (text_length cur + text_length para + 2) max_len)) [
      | inl fits ↦ rw (full, fits) tt
      | inr apart ↦ rw (full, apart) (h, tt)
    ]
  ]

  fill-AllShort :
      (cur : String) (paras : List String) → IsShort cur → All IsShort (fill max_len cur paras)
  unfolding fill
  fill-AllShort cur [] h = elim (Bool-cases (cur == "")) [
    | inl empty ↦ rw empty tt
    | inr full ↦ rw full (h, tt)
  ]
  fill-AllShort cur (para ∷ paras) h =
      let joined = join_paragraph max_len cur para in
      let pieces = cut-AllShort (suc (text_length joined.cur)) joined.cur (omega arith) in
      All-append IsShort joined.out _ (join-out cur para h) (
        All-append IsShort (cut (suc (text_length joined.cur)) max_len joined.cur).out _ pieces.0 (
          fill-AllShort (cut (suc (text_length joined.cur)) max_len joined.cur).cur paras pieces.1))

  -- With a positive limit no chunk of a text is longer than the limit, however
  -- long its paragraphs are.
  pub split_paragraphs-AllShort :
      (body : String) → All (λ s. text_length s ≤ max_len) (split_paragraphs body max_len)
  unfolding split_paragraphs
  split_paragraphs-AllShort body =
      front (fill max_len "" (split_blank (suc (text_length body)) body))
        (fill-AllShort "" _ (omega (arith, length-nil)))
    where
      front : (out : List String) → All IsShort out → All IsShort (or_front max_len body out)
      front [] h = (omega (arith, length-take_text max_len body), tt)
      front (s ∷ out) h = h
