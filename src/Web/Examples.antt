-- ===== src/Web/Examples.antt =====
-- The results of Web with a token, a digest of its own and one session.
use fuko_pr.Prelude.{
  String, ◌≡◌, ◌↔◌, refl, true, none, some, [], ◌∷◌, arith, starts_with, if◌then◌else◌, if-both,
  ◌+◌, ◌*◌, ◌/◌, ◌<◌, all_chars, text_length, decimal,
}
use fuko_pr.Web.Session.{
  cookie, ttl_seconds, Request, not_configured, invalid_csrf, returned, raised, login_page,
  redirect_with, safe_next, issue, is_valid, csrf_token, check_csrf, require, session_cookie,
  login_submit, sign_in,
}
use fuko_pr.Web.Values.{is_hex, IsHexdigest}
use fuko_pr.Web.Signed.{IsSigned, issue-is_valid, is_valid-IsSigned}
use fuko_pr.Web.Redirects.{IsInside}
use fuko_pr.Web.SignIn.{configured-fails_closed, login_submit-Opens}

abbrev hexdigest : String → String → String
hexdigest key payload =
    if starts_with "csrf:" payload
    then "bbbbbbbbbbbbbbbbbbbbbbbbbbbbbbbbbbbbbbbbbbbbbbbbbbbbbbbbbbbbbbbb"
    else "aaaaaaaaaaaaaaaaaaaaaaaaaaaaaaaaaaaaaaaaaaaaaaaaaaaaaaaaaaaaaaaa"

hexdigest-IsHexdigest : IsHexdigest hexdigest
unfolding all_chars
hexdigest-IsHexdigest key payload =
    if-both (λ t. (all_chars is_hex t ≡ true) × (text_length t ≡ 64)) (starts_with "csrf:" payload)
      _ _ (λ h. (refl, refl)) (λ h. (refl, refl))

abbrev session : String
session = "v1.43201.aaaaaaaaaaaaaaaaaaaaaaaaaaaaaaaaaaaaaaaaaaaaaaaaaaaaaaaaaaaaaaaa"

abbrev visit : Request
visit = record {
  path = "/ui/kb";
  query = "q=1";
  scheme = "http";
  headers = [];
  cookies = (cookie, session) ∷ [];
}

abbrev stranger : Request
stranger = record { path = "/ui/kb"; query = "q=1"; scheme = "http"; headers = []; cookies = [] }

-- A session is asked for, and the page that was left is kept.
sent_to_sign_in :
    require (some "token") hexdigest (λ t. t) stranger 0
    ≡ raised (sign_in "/ui/login?next=/ui/kb?q=1")
unfolding require
sent_to_sign_in = refl

-- Another site is no destination, nor is a path that a browser reads as one.
other_site : safe_next (some "//evil.example/ui/") ≡ "/ui"
unfolding safe_next
other_site = refl

slashes_inside : safe_next (some "/ui//evil.example") ≡ "/ui"
unfolding safe_next
slashes_inside = refl

is_valid-IsSigned_example :
    (is_valid (some "token") hexdigest (some session) 0 ≡ true)
    ↔ IsSigned (some "token") hexdigest session 0
is_valid-IsSigned_example =
    is_valid-IsSigned (some "token") hexdigest hexdigest-IsHexdigest session 0

issue-is_valid_example :
    (value : String) × (issue (some "token") hexdigest 1000000 ≡ some value)
    × ((is_valid (some "token") hexdigest (some value) 2000000 ≡ true)
        ↔ (2000000 < (1000000 / 1000000 + ttl_seconds) * 1000000))
issue-is_valid_example =
    issue-is_valid (some "token") hexdigest hexdigest-IsHexdigest refl 1000000 2000000 (omega arith)

configured-fails_closed_example :
    (require none hexdigest (λ t. t) visit 0 ≡ raised not_configured)
    × (check_csrf none hexdigest session (some "") ≡ raised invalid_csrf)
    × (login_submit none hexdigest (λ t. t) visit "" (some "/ui/kb") 0
        ≡ login_page (safe_next (some "/ui/kb")) "That token was not accepted.")
configured-fails_closed_example =
    configured-fails_closed none hexdigest (λ t. t) (λ t. t) refl visit 0 session "" (some "")
      (some "/ui/kb")

login_submit-Opens_example :
    (login_submit (some "token") hexdigest (λ t. t) stranger "token" (some "/ui/kb") 1000000
      ≡ redirect_with
          (safe_next (some "/ui/kb"))
          (session_cookie (some "token") hexdigest (λ t. t) stranger 1000000))
    × IsInside (safe_next (some "/ui/kb"))
    × ((session_cookie (some "token") hexdigest (λ t. t) stranger 1000000).httponly ≡ true)
    × (require (some "token") hexdigest (λ t. t) visit 2000000
        ≡ returned (session_cookie (some "token") hexdigest (λ t. t) stranger 1000000).value)
    × (check_csrf
          (some "token")
          hexdigest
          (session_cookie (some "token") hexdigest (λ t. t) stranger 1000000).value
          (some (
            csrf_token
              (some "token")
              hexdigest
              (session_cookie (some "token") hexdigest (λ t. t) stranger 1000000).value))
        ≡ returned tt)
unfolding session_cookie starts_with decimal
login_submit-Opens_example =
    login_submit-Opens (some "token") hexdigest (λ t. t) (λ t. t) hexdigest-IsHexdigest stranger
      "token" (some "/ui/kb") 1000000 refl (omega arith) visit 2000000 refl (omega arith)
