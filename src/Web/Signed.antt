-- ===== src/Web/Signed.antt =====
-- Which session cookies are accepted (`is_valid` of sidecar/web/security.py).
use fuko_pr.Prelude.{
  ℕ, ◌+◌, ◌*◌, ◌/◌, ◌≤◌, ◌<◌, String, ◌≡◌, ◌↔◌, refl, sym, ap, subst, ◌∙◌, true, false, Option,
  some, List, [], ◌∷◌, arith, inl, inr, ◌==◌, ==_refl, ==_iff, nat_eq, text_eq, Option-cases,
  decimal, text_length, split_on, join_on, join_on-split_on, all_chars, is_number, int_of,
  int_of-decimal, decimal-is_number, length-decimal,
}
use fuko_pr.Web.Session.{configured, ttl_seconds, sign, issue, are_valid, is_valid}
use fuko_pr.Web.Values.{
  is_hex, IsHexdigest, session_value, session_value-join, number_hex, hex_full, session_value_full,
  split_on-session_value, session_value-is_ascii,
}

module _ (auth_token : Option String) (hexdigest : String → String → String) where
  -- The value is one that the token signed, and its second has not come.
  abbrev pub IsSigned : String → ℕ → Type 0
  IsSigned value now =
      (expires : String) × (signature : String) × (value ≡ session_value expires signature)
      × (is_number expires ≡ true)
      × (text_length expires ≤ 20)
      × (now < int_of expires * 1000000)
      × (sign auth_token hexdigest expires ≡ some signature)

  abbrev Parts : List String → ℕ → Type 0
  Parts parts now =
      (expires : String) × (signature : String) × (parts ≡ "v1" ∷ expires ∷ signature ∷ [])
      × (is_number expires ≡ true)
      × (text_length expires ≤ 20)
      × (now < int_of expires * 1000000)
      × (sign auth_token hexdigest expires ≡ some signature)

  Parts-of_valid :
      (parts : List String) (now : ℕ)
      → are_valid auth_token hexdigest parts now ≡ true
      → Parts parts now
  unfolding are_valid
  Parts-of_valid [] now h = cc
  Parts-of_valid (a ∷ []) now h = cc
  Parts-of_valid (a ∷ b ∷ []) now h = cc
  Parts-of_valid (a ∷ b ∷ c ∷ d ∷ ps) now h = cc
  Parts-of_valid (version ∷ expires ∷ signature ∷ []) now h =
      elim (Option-cases (sign auth_token hexdigest expires)) [
        | inl unsigned ↦ absurd (ground (arith, rw (unsigned, are_valid) at h))
        | inr (expected, e) ↦
            let k = rw (e, are_valid) at h in
            let one : version ≡ "v1" = (==_iff version "v1").0 (ground (arith, k)) in
            let same : expected ≡ signature = (==_iff expected signature).0 (ground (arith, k)) in
            (
              expires,
              signature,
              ap (λ v. v ∷ expires ∷ signature ∷ []) one,
              ground (arith, k),
              ground (arith, k),
              ground (arith, k),
              e ∙ ap (λ t. some t) same,
            )
      ]

  are_valid-back :
      (expires signature : String) (now : ℕ)
      → is_number expires ≡ true
      → text_length expires ≤ 20
      → now < int_of expires * 1000000
      → sign auth_token hexdigest expires ≡ some signature
      → (signature == "") ≡ false
      → are_valid auth_token hexdigest ("v1" ∷ expires ∷ signature ∷ []) now ≡ true
  unfolding are_valid
  are_valid-back expires signature now number short before signed full =
      let same = ==_refl signature in rw signed (ground (arith, number, short, before, full, same))

  pub signed_hex :
      IsHexdigest hexdigest
      → (payload signature : String) → sign auth_token hexdigest payload ≡ some signature
      → (all_chars is_hex signature ≡ true) × (text_length signature ≡ 64)
  unfolding sign
  signed_hex hex payload signature h = elim (Option-cases auth_token) [
    | inl absent ↦ absurd (ground (arith, rw (absent, sign) at h))
    | inr (key, present) ↦
        let k = rw (present, sign) at h in
        let same : hexdigest key payload ≡ signature = grind (arith, k) in
        subst (λ t. (all_chars is_hex t ≡ true) × (text_length t ≡ 64)) same (hex key payload)
  ]

  is_valid-session_value :
      (expires signature : String) (now : ℕ)
      → all_chars is_hex expires ≡ true
      → all_chars is_hex signature ≡ true
      → is_valid auth_token hexdigest (some (session_value expires signature)) now
        ≡ are_valid auth_token hexdigest ("v1" ∷ expires ∷ signature ∷ []) now
  unfolding is_valid
  is_valid-session_value expires signature now digits hex =
      rw
        (
          session_value_full expires signature,
          session_value-is_ascii expires signature digits hex,
          split_on-session_value expires signature digits hex,
        )
        refl

  -- With a digest of hexadecimal digits, a session value is accepted exactly when it is `v1`, a number
  -- of at most 20 digits and that number's signature under the configured token, joined by dots, and
  -- the second that the number names has not begun.
  pub is_valid-IsSigned :
      IsHexdigest hexdigest
      → (value : String) (now : ℕ)
      → (is_valid auth_token hexdigest (some value) now ≡ true) ↔ IsSigned value now
  unfolding is_valid join_on
  is_valid-IsSigned hex value now = (
    λ h.
        let (expires, signature, parts, number, short, before, signed) =
          Parts-of_valid (split_on 46 value) now (ground (arith, h)) in
        (
          expires,
          signature,
          sym (join_on-split_on "." value)
              ∙ ap (join_on ".") parts
              ∙ sym (session_value-join expires signature),
          number,
          short,
          before,
          signed,
        ),
    λ (expires, signature, same, number, short, before, signed).
        let (digits, length) = signed_hex hex expires signature signed in
        let valid =
          are_valid-back expires signature now number short before signed
            (hex_full signature length) in
        rw same
          (is_valid-session_value expires signature now (number_hex expires number) digits ∙ valid),
  )

  pub signs :
      configured auth_token hexdigest ≡ true
      → (payload : String)
      → (signature : String) × (sign auth_token hexdigest payload ≡ some signature)
  unfolding sign
  signs h payload = elim (Option-cases auth_token) [
    | inl absent ↦ absurd (ground (arith, rw absent at h))
    | inr (key, present) ↦
        let full : (key == "") ≡ false = ground (arith, rw present at h) in
        (hexdigest key payload, rw (present, full) refl)
  ]

  issued :
      IsHexdigest hexdigest
      → (now : ℕ) → configured auth_token hexdigest ≡ true
      → (signature : String) × (sign auth_token hexdigest (decimal (now / 1000000 + ttl_seconds))
          ≡ some signature)
        × (issue auth_token hexdigest now
            ≡ some (session_value (decimal (now / 1000000 + ttl_seconds)) signature))
  unfolding issue
  issued hex now h =
      let expires = decimal (now / 1000000 + ttl_seconds) in
      let (signature, signed) = signs h expires in
      let full = hex_full signature (signed_hex hex expires signature signed).1 in
      (signature, signed, rw (signed, issue, full) refl)

  -- With a token configured and a digest of hexadecimal digits, a session is issued at every time
  -- whose expiry has at most 20 digits, and it is accepted exactly until its expiry, twelve hours
  -- after the second of its issue.
  pub issue-is_valid :
      IsHexdigest hexdigest
      → configured auth_token hexdigest ≡ true
      → (now later : ℕ) → now / 1000000 + ttl_seconds < 100000000000000000000
      → (value : String) × (issue auth_token hexdigest now ≡ some value)
        × ((is_valid auth_token hexdigest (some value) later ≡ true)
            ↔ (later < (now / 1000000 + ttl_seconds) * 1000000))
  issue-is_valid hex h now later short =
      let second = now / 1000000 + ttl_seconds in
      let expires = decimal second in
      let (signature, signed, issues) = issued hex now h in
      let (hexes, length) = signed_hex hex expires signature signed in
      let number = decimal-is_number second in
      let valid =
        is_valid-session_value expires signature later (number_hex expires number) hexes in
      (
        session_value expires signature,
        issues,
        (
          λ accepted.
              let (e, s, parts, number', short', before, signed') =
                Parts-of_valid ("v1" ∷ expires ∷ signature ∷ []) later (sym (valid) ∙ accepted) in
              let same : expires ≡ e = cc in
              subst (λ n. later < n * 1000000) (int_of-decimal second)
                (subst (λ t. later < int_of t * 1000000) (sym same) before),
          λ before.
              valid
              ∙ are_valid-back expires signature later number (length-decimal second 19 short)
                  (subst (λ n. later < n * 1000000) (sym (int_of-decimal second)) before) signed
                  (hex_full signature length),
        ),
      )
