-- ===== src/Auth/Tokens.antt =====
-- The token functions of platform/fmp/core/security.py. PyJWT is a parameter.
use fuel_monitoring.Prelude.{
  ℕ, ◌+◌, ◌*◌, ◌≤◌, ◌<◌, ◌≡◌, refl, ◌∙◌, sym, true, false, Bool, Option, none, some, Text, codes,
  text_eq, if◌then◌else◌, arith, inl, inr, Option-cases,
}

-- The claims that the program writes and reads; `none` is an entry that is not there.
pub record Claims : Type 0 where
  pub sub : Option Text
  pub iat : Option ℕ
  pub exp : Option ℕ
  pub jti : Option Text
  pub iss : Option Text
  pub aud : Option Text
  pub typ : Option Text
  pub role : Option Text

-- `jwt.encode` with the secret key, and `jwt.decode` with the key, the issuer and the audience of the
-- program, which requires exp, iat, iss, aud and sub, and typ as well if it is told to. `none` is a
-- `PyJWTError`.
pub record Jwt : Type 0 where
  pub encode : Claims → Text
  pub decode : (now : ℕ) → (require_typ : Bool) → Text → Option Claims

abbrev pub token_issuer : Text
token_issuer = codes "fuel-platform"

abbrev pub token_audience : Text
token_audience = codes "fuel-platform-api"

abbrev pub refresh_type : Text
refresh_type = codes "refresh"

-- The claims that `decode` accepts at a time.
pub record IsCurrent (now : ℕ) (c : Claims) : Type 0 where
  pub subject : Text
  pub has_subject : c.sub ≡ some subject
  pub issued : ℕ
  pub has_issued : c.iat ≡ some issued
  pub begun : issued ≤ now
  pub expiry : ℕ
  pub has_expiry : c.exp ≡ some expiry
  pub unexpired : now < expiry
  pub issuer : c.iss ≡ some token_issuer
  pub audience : c.aud ≡ some token_audience

-- Documented behaviour of PyJWT.
pub record JwtLaws (jwt : Jwt) : Type 0 where
  -- a token that was encoded decodes to its claims while they are current
  pub decode-encode :
      (now : ℕ) (c : Claims) → IsCurrent now c → jwt.decode now false (jwt.encode c) ≡ some c
  -- to require a claim only refuses tokens without it
  pub decode_required :
      (now : ℕ) (t : Text) (c : Claims)
      → jwt.decode now true t ≡ some c
      → jwt.decode now false t ≡ some c
  pub decode_has_typ :
      (now : ℕ) (t typ : Text) (c : Claims)
      → jwt.decode now false t ≡ some c
      → c.typ ≡ some typ
      → jwt.decode now true t ≡ some c

-- The defaults of platform/fmp/core/config.py.
abbrev pub access_token_expire_minutes : ℕ
access_token_expire_minutes = 60

abbrev pub refresh_token_expire_days : ℕ
refresh_token_expire_days = 14

-- `claims.get("typ") == "refresh"`
abbrev pub is_refresh : Option Text → Bool
is_refresh none = false
is_refresh (some t) = text_eq t refresh_type

-- The payload of `create_access_token` with the extra claim `role`; `jti` is the new uuid.
unfoldable pub access_claims : (now : ℕ) → (jti subject role : Text) → Claims
access_claims now jti subject role = record {
  sub = some subject;
  iat = some now;
  exp = some (now + access_token_expire_minutes * 60);
  jti = some jti;
  iss = some token_issuer;
  aud = some token_audience;
  typ = none;
  role = some role;
}

unfoldable pub refresh_claims : (now : ℕ) → (jti subject : Text) → Claims
refresh_claims now jti subject = record {
  sub = some subject;
  iat = some now;
  exp = some (now + refresh_token_expire_days * 86400);
  jti = some jti;
  iss = some token_issuer;
  aud = some token_audience;
  typ = some refresh_type;
  role = none;
}

module _ (jwt : Jwt) where
  unfoldable pub create_access_token : (now : ℕ) → (jti subject role : Text) → Text
  create_access_token now jti subject role = jwt.encode (access_claims now jti subject role)

  unfoldable pub create_refresh_token : (now : ℕ) → (jti subject : Text) → Text
  create_refresh_token now jti subject = jwt.encode (refresh_claims now jti subject)

  abbrev pub only_refresh : Option Claims → Option Claims
  only_refresh none = none
  only_refresh (some c) = if is_refresh c.typ then some c else none

  abbrev pub no_refresh : Option Claims → Option Claims
  no_refresh none = none
  no_refresh (some c) = if is_refresh c.typ then none else some c

  unfoldable pub decode_refresh_token : (now : ℕ) → Text → Option Claims
  decode_refresh_token now token = only_refresh (jwt.decode now true token)

  unfoldable pub decode_token : (now : ℕ) → Text → Option Claims
  decode_token now token = no_refresh (jwt.decode now false token)

  -- `get_current_user_from_query`
  abbrev pub get_current_user_from_query : (now : ℕ) → Text → Option Claims
  get_current_user_from_query now token = decode_token now token

  only_refresh-some :
      (o : Option Claims) (c : Claims)
      → only_refresh o ≡ some c
      → (o ≡ some c) × (is_refresh c.typ ≡ true)
  only_refresh-some none c h = absurd (cc)
  only_refresh-some (some d) c h = (ground arith, ground arith)

  -- A token that is a refresh token is not an access token.
  refresh_refused :
      (laws : JwtLaws jwt) (now : ℕ) (t : Text) (c : Claims)
      → decode_refresh_token now t ≡ some c
      → decode_token now t ≡ none
  unfolding decode_refresh_token decode_token
  refresh_refused laws now t c h =
      let (decoded, typed) = only_refresh-some (jwt.decode now true t) c h in
      rw (laws.decode_required now t c decoded, typed)

  access-IsCurrent :
      (now later : ℕ) (jti subject role : Text)
      → now ≤ later
      → later < now + access_token_expire_minutes * 60
      → IsCurrent later (access_claims now jti subject role)
  unfolding access_claims
  access-IsCurrent now later jti subject role a b = record {
    subject = subject;
    has_subject = refl;
    issued = now;
    has_issued = refl;
    begun = a;
    expiry = now + access_token_expire_minutes * 60;
    has_expiry = refl;
    unexpired = b;
    issuer = refl;
    audience = refl;
  }

  refresh-IsCurrent :
      (now later : ℕ) (jti subject : Text)
      → now ≤ later
      → later < now + refresh_token_expire_days * 86400
      → IsCurrent later (refresh_claims now jti subject)
  unfolding refresh_claims
  refresh-IsCurrent now later jti subject a b = record {
    subject = subject;
    has_subject = refl;
    issued = now;
    has_issued = refl;
    begun = a;
    expiry = now + refresh_token_expire_days * 86400;
    has_expiry = refl;
    unexpired = b;
    issuer = refl;
    audience = refl;
  }

  access_decoded :
      (laws : JwtLaws jwt) (now later : ℕ) (jti subject role : Text)
      → now ≤ later
      → later < now + access_token_expire_minutes * 60
      → jwt.decode later false (jwt.encode (access_claims now jti subject role))
        ≡ some (access_claims now jti subject role)
  access_decoded laws now later jti subject role a b =
      laws.decode-encode later (access_claims now jti subject role)
        (access-IsCurrent now later jti subject role a b)

  access_not_refresh :
      (laws : JwtLaws jwt) (now later : ℕ) (jti subject role : Text)
      → now ≤ later
      → later < now + access_token_expire_minutes * 60
      → only_refresh (jwt.decode later true (jwt.encode (access_claims now jti subject role)))
        ≡ none
  unfolding access_claims
  access_not_refresh laws now later jti subject role a b =
      elim (Option-cases
        (jwt.decode later true (jwt.encode (access_claims now jti subject role)))) [
          | inl e ↦ rw e refl
          | inr (c, e) ↦
              let same : some c ≡ some (access_claims now jti subject role) =
                sym
                  (laws.decode_required later (jwt.encode (access_claims now jti subject role)) c e)
                ∙ access_decoded laws now later jti subject role a b in
              rw e (ground (arith, same))
        ]

  refresh_decoded :
      (laws : JwtLaws jwt) (now later : ℕ) (jti subject : Text)
      → now ≤ later
      → later < now + refresh_token_expire_days * 86400
      → jwt.decode later true (jwt.encode (refresh_claims now jti subject))
        ≡ some (refresh_claims now jti subject)
  refresh_decoded laws now later jti subject a b =
      laws.decode_has_typ later (jwt.encode (refresh_claims now jti subject)) refresh_type
        (refresh_claims now jti subject)
        (laws.decode-encode later (refresh_claims now jti subject)
          (refresh-IsCurrent now later jti subject a b))
        (unfold refresh_claims in refl)

  -- While it is current - an hour for an access token, fourteen days for a refresh token - a token of
  -- either kind decodes to its claims as its own kind, and is refused as the other kind.
  pub tokens_kept_apart :
      (laws : JwtLaws jwt) (now soon later : ℕ) (jti subject role : Text)
      → now ≤ soon
      → soon < now + 60 * 60
      → now ≤ later
      → later < now + 14 * 24 * 60 * 60
      → (decode_token soon (create_access_token now jti subject role)
          ≡ some (access_claims now jti subject role))
        × (decode_refresh_token soon (create_access_token now jti subject role) ≡ none)
        × (decode_refresh_token later (create_refresh_token now jti subject)
            ≡ some (refresh_claims now jti subject))
        × (decode_token later (create_refresh_token now jti subject) ≡ none)
  unfolding decode_token decode_refresh_token create_access_token create_refresh_token text_eq
  tokens_kept_apart laws now soon later jti subject role a b x y =
      let refreshed = refresh_decoded laws now later jti subject x (omega (arith, y)) in
      (
        rw (access_decoded laws now soon jti subject role a b) (unfold access_claims in refl),
        access_not_refresh laws now soon jti subject role a b,
        rw refreshed (unfold refresh_claims in refl),
        rw
            (laws.decode_required later (jwt.encode (refresh_claims now jti subject))
              (refresh_claims now jti subject) refreshed)
            (unfold refresh_claims in refl),
      )
