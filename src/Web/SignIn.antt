-- ===== src/Web/SignIn.antt =====
-- Sign-in, and what its session opens (sidecar/web/security.py).
use fuko_pr.Prelude.{
  ℕ, ◌+◌, ◌*◌, ◌/◌, ◌<◌, String, ◌<+>◌, ◌≡◌, refl, ap, ◌∙◌, true, false, Option, none, some, List,
  arith, inl, inr, ◌==◌, ==_refl, ==_iff, text_eq, Option-cases, get, split_on, ◌∷◌, [],
}
use fuko_pr.Web.Session.{
  cookie, ttl_seconds, Request, not_configured, invalid_csrf, returned, raised, login_page,
  redirect_with, safe_next, configured, sign, issue, is_valid, csrf_token, session_of, check_csrf,
  accepts, require, session_cookie, login_submit, are_valid, value_of,
}
use fuko_pr.Web.Values.{IsHexdigest, hex_full}
use fuko_pr.Web.Signed.{issue-is_valid, signs, signed_hex}
use fuko_pr.Web.Redirects.{IsInside, safe_next-IsInside}

module _ (auth_token : Option String) (hexdigest : String → String → String) where
  unsigned :
      configured auth_token hexdigest ≡ false
      → (payload : String) → sign auth_token hexdigest payload ≡ none
  unfolding sign
  unsigned h payload = elim (Option-cases auth_token) [
    | inl absent ↦ rw absent refl
    | inr (key, present) ↦
        let empty : (key == "") ≡ true = ground (arith, rw present at h) in rw (present, empty) refl
  ]

  unsigned_parts :
      configured auth_token hexdigest ≡ false
      → (parts : List String) (now : ℕ) → are_valid auth_token hexdigest parts now ≡ false
  unfolding are_valid
  unsigned_parts h [] now = refl
  unsigned_parts h (a ∷ []) now = refl
  unsigned_parts h (a ∷ b ∷ []) now = refl
  unsigned_parts h (a ∷ b ∷ c ∷ d ∷ ps) now = refl
  unsigned_parts h (a ∷ b ∷ c ∷ []) now = rw (unsigned h b) (ground arith)

  unsigned_value :
      configured auth_token hexdigest ≡ false
      → (value : Option String) (now : ℕ) → is_valid auth_token hexdigest value now ≡ false
  unfolding is_valid
  unsigned_value h none now = refl
  unsigned_value h (some value) now = rw (unsigned_parts h (split_on 46 value) now) (ground arith)

  unsessioned :
      configured auth_token hexdigest ≡ false
      → (request : Request) (now : ℕ) → session_of auth_token hexdigest request now ≡ none
  unfolding session_of
  unsessioned h request now = rw (unsigned_value h (get request.cookies cookie) now) refl

  no_csrf :
      configured auth_token hexdigest ≡ false
      → (session : String) (submitted : Option String)
      → check_csrf auth_token hexdigest session submitted ≡ raised invalid_csrf
  unfolding check_csrf csrf_token
  no_csrf h session none = refl
  no_csrf h session (some submitted) =
      let token : csrf_token auth_token hexdigest session ≡ "" =
        rw (unsigned h ("csrf:" <+> session), csrf_token) refl in
      rw (token, check_csrf) (ground (arith, ==_iff submitted "", ==_iff "" submitted))

  not_accepted :
      configured auth_token hexdigest ≡ false
      → (token : String) → accepts auth_token hexdigest token ≡ false
  not_accepted h token = elim (Option-cases auth_token) [
    | inl absent ↦ rw absent refl
    | inr (key, present) ↦ let k = rw present at h in rw present (ground (arith, k))
  ]

  -- With no token configured, or an empty one, every request is refused a session as not configured,
  -- every CSRF token is refused, and every sign-in is answered with the form.
  pub configured-fails_closed :
      (quote lower : String → String)
      → configured auth_token hexdigest ≡ false
      → (request : Request) (now : ℕ) (session token : String) (submitted next : Option String)
      → (require auth_token hexdigest quote request now ≡ raised not_configured)
        × (check_csrf auth_token hexdigest session submitted ≡ raised invalid_csrf)
        × (login_submit auth_token hexdigest lower request token next now
            ≡ login_page (safe_next next) "That token was not accepted.")
  unfolding require login_submit
  configured-fails_closed quote lower h request now session token submitted next = (
    rw (unsessioned h request now, require, h) refl,
    no_csrf h session submitted,
    rw (not_accepted h token) refl,
  )

  valid_full :
      (value : String) (now : ℕ)
      → is_valid auth_token hexdigest (some value) now ≡ true
      → (value == "") ≡ false
  unfolding is_valid
  valid_full value now h = ground (arith, h)

  opened :
      (quote : String → String) (value : String) (request : Request) (now : ℕ)
      → get request.cookies cookie ≡ some value
      → is_valid auth_token hexdigest (some value) now ≡ true
      → (value == "") ≡ false
      → require auth_token hexdigest quote request now ≡ returned value
  unfolding require
  opened quote value request now stored valid full =
      let session : session_of auth_token hexdigest request now ≡ some value =
        rw (session_of, stored, valid) refl in
      rw (session, require, full) refl

  passed :
      IsHexdigest hexdigest
      → configured auth_token hexdigest ≡ true
      → (value : String)
      → check_csrf auth_token hexdigest value (some (csrf_token auth_token hexdigest value))
        ≡ returned tt
  unfolding check_csrf csrf_token
  passed hex h value =
      let (token, signed) = signs auth_token hexdigest h ("csrf:" <+> value) in
      let full = hex_full token (signed_hex auth_token hexdigest hex _ token signed).1 in
      let same = ==_refl token in
      let csrf : csrf_token auth_token hexdigest value ≡ token = rw (signed, csrf_token) refl in
      rw (csrf, full, same) refl

  accepts-configured :
      (token : String)
      → accepts auth_token hexdigest token ≡ true
      → configured auth_token hexdigest ≡ true
  accepts-configured token h = elim (Option-cases auth_token) [
    | inl absent ↦ absurd (ground (arith, rw absent at h))
    | inr (key, present) ↦ let k = rw present at h in rw present (ground (arith, k))
  ]

  -- With a digest of hexadecimal digits, a sign-in with the configured token, at a time whose expiry
  -- has at most 20 digits, redirects to a path inside the console with a session cookie that scripts
  -- cannot read; until twelve hours after it, a request with that cookie is let through with its
  -- session, and a form with the session's CSRF token is accepted.
  pub login_submit-Opens :
      (quote lower : String → String)
      → IsHexdigest hexdigest
      → (request : Request) (token : String) (next : Option String) (now : ℕ)
      → accepts auth_token hexdigest token ≡ true
      → now / 1000000 + ttl_seconds < 100000000000000000000
      → (request' : Request) (later : ℕ)
      → get request'.cookies cookie
        ≡ some (session_cookie auth_token hexdigest lower request now).value
      → later < (now / 1000000 + ttl_seconds) * 1000000
      → (login_submit auth_token hexdigest lower request token next now
          ≡ redirect_with (safe_next next) (session_cookie auth_token hexdigest lower request now))
        × IsInside (safe_next next)
        × ((session_cookie auth_token hexdigest lower request now).httponly ≡ true)
        × (require auth_token hexdigest quote request' later
            ≡ returned (session_cookie auth_token hexdigest lower request now).value)
        × (check_csrf auth_token hexdigest
              (session_cookie auth_token hexdigest lower request now).value
              (some (
                csrf_token auth_token hexdigest
                  (session_cookie auth_token hexdigest lower request now).value))
            ≡ returned tt)
  unfolding login_submit session_cookie
  login_submit-Opens quote lower hex request token next now accepted short request' later stored
        before =
      let h = accepts-configured token accepted in
      let (value, issued, valid) = issue-is_valid auth_token hexdigest hex h now later short in
      let same : value_of (issue auth_token hexdigest now) ≡ value = ap value_of issued in
      (
        rw (login_submit, accepted) refl,
        safe_next-IsInside next,
        refl,
        rw same (
            opened quote value request' later (stored ∙ ap (λ t. some t) same) (valid.1 before)
              (valid_full value later (valid.1 before))),
        passed hex h (value_of (issue auth_token hexdigest now)),
      )
