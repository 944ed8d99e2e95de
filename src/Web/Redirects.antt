-- ===== src/Web/Redirects.antt =====
-- Where a sign-in leads (`_safe_next` of sidecar/web/security.py).
use fuko_pr.Prelude.{
  String, ◌<+>◌, ◌≡◌, ◌≢◌, ◌⊎◌, inl, inr, refl, sym, ap, ◌∙◌, true, false, Option, none, some,
  arith, text_eq, if-both, starts_with, starts_with-append, or_left, starts_with-front,
}
use mathlib.Core.Bool.{false≢true}
use text.Mathlib.TextLemmas.{nil-append, cons-append}
use fuko_pr.Web.Session.{console_prefix, has_double_slash, safe_next}

-- A path of the console: its index, or one below it in which no two slashes follow each other.
abbrev pub IsInside : String → Type 0
IsInside path =
    (path ≡ "/ui")
    ⊎ ((rest : String) × (path ≡ "/ui/" <+> rest)
        × ((before after : String) → path ≢ before <+> ("//" <+> after)))

has_double_slash-append :
    (before after : String) → has_double_slash (before <+> ("//" <+> after)) ≡ true
unfolding has_double_slash
has_double_slash-append String.[] after =
    let front = cons-append "/" "/" after in
    let here = ap (starts_with "//") (sym front) ∙ starts_with-append "//" after in
    rw (nil-append ("//" <+> after), front) (or_left _ _ here)
has_double_slash-append (String.◌∷◌ c before) after =
    let ih = has_double_slash-append before after in
    rw (cons-append c before ("//" <+> after)) (ground (arith, ih))

pub safe_next-IsInside : (next : Option String) → IsInside (safe_next next)
unfolding safe_next
safe_next-IsInside none = inl refl
safe_next-IsInside (some next) =
    if-both IsInside _ next console_prefix
      (λ h.
        let single : has_double_slash next ≡ false = ground (arith, h) in
        let (rest, front) = starts_with-front "/ui/" next (ground (arith, h)) in
        inr (
          rest,
          front,
          λ before after e.
              false≢true
                (sym single ∙ ap has_double_slash e ∙ has_double_slash-append before after),
        ))
      (λ h. inl refl)
