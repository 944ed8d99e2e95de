-- ===== src/Web/Session.antt =====
-- sidecar/web/security.py: the signed session cookie, the CSRF token, the guards of a route, sign-in
-- and sign-out. The configured token, the HMAC-SHA256 hex digest, `urllib.parse.quote` and
-- `str.lower` are parameters. A clock reading counts microseconds; the session's expiry is a second.
use fuko_pr.Prelude.{
  ℕ, ◌+◌, ◌*◌, ◌/◌, String, ◌<+>◌, Bool, true, false, not, ◌&&◌, ◌||◌, Option, none, some, List, [],
  ◌∷◌, ltb, leb, ◌==◌, nat_eq, text_eq, if◌then◌else◌, decimal, strip, starts_with, text_length,
  split_on, all_chars, is_number, int_of, get,
}

abbrev pub cookie : String
cookie = "fuko_session"

abbrev pub console_prefix : String
console_prefix = "/ui"

abbrev pub login_path : String
login_path = "/ui/login"

abbrev pub ttl_seconds : ℕ
ttl_seconds = 12 * 3600

-- `s.isascii()`
abbrev pub is_ascii : String → Bool
is_ascii = all_chars (λ c. ltb c 128)

-- `request.url.path`, `.query`, `.scheme`, the headers by their lower-case names, the cookies.
pub record Request : Type 0 where
  pub path : String
  pub query : String
  pub scheme : String
  pub headers : List (String × String)
  pub cookies : List (String × String)

-- What a guard or a route answers with, in place of a page, as an exception.
pub data Refusal : Type 0 where
  not_configured : Refusal
  sign_in : String → Refusal
  invalid_csrf : Refusal

pub data Answer (A : Type 0) : Type 0 where
  returned : A → Answer A
  raised : Refusal → Answer A

-- The arguments of `response.set_cookie`.
pub record SetCookie : Type 0 where
  pub name : String
  pub value : String
  pub max_age : ℕ
  pub httponly : Bool
  pub samesite : String
  pub secure : Bool
  pub cookie_path : String

-- The answer of a sign-in or a sign-out: the form again (401), with the destination and the error it
-- shows; or a redirect (303) that sets, or drops, a cookie.
pub data Response : Type 0 where
  login_page : String → String → Response
  redirect_with : String → SetCookie → Response
  redirect_dropping : String → String → String → Response

-- `"//" in s`
unfoldable pub has_double_slash : String → Bool
unfolding starts_with
has_double_slash String.[] = false
has_double_slash (String.◌∷◌ c s) = starts_with "//" (String.◌∷◌ c s) || has_double_slash s

-- `_safe_next`
unfoldable pub safe_next : Option String → String
unfolding has_double_slash starts_with
safe_next none = console_prefix
safe_next (some next) =
    if not (next == "") && starts_with "/ui/" next && not (has_double_slash next)
    then next
    else console_prefix

-- `request.headers.get("x-forwarded-proto", "")`
unfoldable pub forwarded : Request → String
unfolding get
forwarded request = elim (get request.headers "x-forwarded-proto") [ none ↦ "" | some h ↦ h ]

abbrev pub first_of : List String → String
first_of [] = ""
first_of (part ∷ parts) = part

-- `is_secure`
unfoldable pub is_secure : (String → String) → Request → Bool
unfolding forwarded strip split_on
is_secure lower request =
    if not (forwarded request == "")
    then lower (strip (first_of (split_on 44 (forwarded request)))) == "https"
    else request.scheme == "https"

abbrev pub value_of : Option String → String
value_of none = ""
value_of (some value) = value

module _ (auth_token : Option String) (hexdigest : String → String → String) where
  -- `bool(settings.auth_token)`
  abbrev pub configured : Bool
  configured = elim auth_token [ none ↦ false | some token ↦ not (token == "") ]

  -- `_sign`
  unfoldable pub sign : String → Option String
  sign payload = elim auth_token [
    | none ↦ none
    | some token ↦ if token == "" then none else some (hexdigest token payload)
  ]

  -- `issue`
  unfoldable pub issue : ℕ → Option String
  unfolding sign
  issue now =
      let expires = decimal (now / 1000000 + ttl_seconds) in
      elim (sign expires) [
        | none ↦ none
        | some signature ↦
            if signature == "" then none else some ("v1." <+> (expires <+> ("." <+> signature)))
      ]

  -- `is_valid`, from the parts of the value
  unfoldable pub are_valid : List String → ℕ → Bool
  unfolding sign
  are_valid (version ∷ expires ∷ signature ∷ []) now =
      if not (version == "v1")
      then false
      else if not (is_number expires) || ltb 20 (text_length expires)
      then false
      else if leb (int_of expires * 1000000) now
      then false
      else elim (sign expires) [
        | none ↦ false
        | some expected ↦ not (expected == "") && (expected == signature)
      ]
  are_valid parts now = false

  -- `is_valid`
  unfoldable pub is_valid : Option String → ℕ → Bool
  unfolding are_valid split_on
  is_valid none now = false
  is_valid (some value) now =
      if (value == "") || not (is_ascii value) then false else are_valid (split_on 46 value) now

  -- `csrf_token`
  unfoldable pub csrf_token : String → String
  unfolding sign
  csrf_token session = elim (sign ("csrf:" <+> session)) [ none ↦ "" | some token ↦ token ]

  -- `session_of`
  unfoldable pub session_of : Request → ℕ → Option String
  unfolding is_valid get
  session_of request now =
      let value = get request.cookies cookie in if is_valid value now then value else none

  -- `check_csrf`
  unfoldable pub check_csrf : String → Option String → Answer Unit
  unfolding csrf_token
  check_csrf session none = raised invalid_csrf
  check_csrf session (some submitted) =
      if (submitted == "") || not (csrf_token session == submitted)
      then raised invalid_csrf
      else returned tt

  -- `settings.auth_token and _same(token, settings.auth_token)`
  abbrev pub accepts : String → Bool
  accepts token = elim auth_token [
    | none ↦ false
    | some expected ↦ not (expected == "") && (token == expected)
  ]

  -- `logout`
  unfoldable pub logout : Request → String → ℕ → Answer Response
  unfolding session_of check_csrf
  logout request csrf now =
      let dropped = redirect_dropping console_prefix cookie console_prefix in
      elim (session_of request now) [
        | none ↦ returned dropped
        | some session ↦
            if session == "" then returned dropped else elim (check_csrf session (some csrf)) [
              | raised refusal ↦ raised refusal
              | returned checked ↦ returned dropped
            ]
      ]

module _ (auth_token : Option String) (hexdigest : String → String → String)
    (quote : String → String) where
  -- `_login_url`
  abbrev pub login_url : String → String
  login_url next_path = login_path <+> ("?next=" <+> quote next_path)

  -- `require`: a session is a text that is not empty.
  unfoldable pub require : Request → ℕ → Answer String
  unfolding session_of
  require request now =
      let refused =
        if not (configured auth_token hexdigest)
        then raised not_configured
        else raised (
            sign_in (
              login_url (
                if request.query == ""
                then request.path
                else request.path <+> ("?" <+> request.query)))) in
      elim (session_of auth_token hexdigest request now) [
        | none ↦ refused
        | some session ↦ if session == "" then refused else returned session
      ]

module _ (auth_token : Option String) (hexdigest : String → String → String)
    (lower : String → String) where
  -- `response.set_cookie(...)`
  unfoldable pub session_cookie : Request → ℕ → SetCookie
  unfolding issue is_secure
  session_cookie request now = record {
    name = cookie;
    value = value_of (issue auth_token hexdigest now);
    max_age = ttl_seconds;
    httponly = true;
    samesite = "strict";
    secure = is_secure lower request;
    cookie_path = console_prefix;
  }

  -- `login_submit`
  unfoldable pub login_submit : Request → String → Option String → ℕ → Response
  unfolding safe_next session_cookie
  login_submit request token next now =
      if not (accepts auth_token hexdigest token)
      then login_page (safe_next next) "That token was not accepted."
      else redirect_with (safe_next next) (session_cookie request now)
