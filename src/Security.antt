-- ===== src/Security.antt =====
-- Code secrets (platform/fmp/core/security.py): generation, salted hash, verification, fingerprint.
-- HMAC and PBKDF2 are hashlib's: parameters that give hexadecimal text.
pub mod Codes
use fuel_monitoring.Prelude.{
  ℕ, zero, suc, ◌+◌, ◌%◌, ◌≡◌, ◌≢◌, Bool, false, Option, none, some, List, [], ◌∷◌, ◌++◌, Text,
  text_eq, ltb, ◌==◌, if◌then◌else◌, All,
}

pub record Crypto : Type 0 where
  -- `hmac.new(SECRET_KEY, code, sha256).hexdigest()`
  pub hmac_hex : Text → Text
  -- `pbkdf2_hmac("sha256", code, salt, 120_000).hex()`
  pub pbkdf2_hex : (code salt : Text) → Text

-- What the code relies on: a hexadecimal digest holds no separator.
pub record HexDigests (c : Crypto) : Type 0 where
  pub pbkdf2_no_dollar : (code salt : Text) → All (λ x. x ≢ b'$') (c.pbkdf2_hex code salt)

abbrev pub cons_first : ℕ → List Text → List Text
cons_first x [] = (x ∷ []) ∷ []
cons_first x (w ∷ ws) = (x ∷ w) ∷ ws

-- `str.split(sep)` with a separator of one character
unfoldable pub split : ℕ → Text → List Text
split sep [] = [] ∷ []
split sep (x ∷ s) = let rest = split sep s in if x == sep then [] ∷ rest else cons_first x rest

-- The digits of `generate_secure_code`: `draw i` is the number behind the `randbelow(10)` at place i.
unfoldable pub digits_from : (ℕ → ℕ) → ℕ → ℕ → Text
digits_from draw i zero = []
digits_from draw i (suc n) = (b'0' + draw i % 10) ∷ digits_from draw (i + 1) n

-- `none` is the `ValueError` of a length below 4.
unfoldable pub generate_secure_code : ℕ → (ℕ → ℕ) → Option Text
unfolding digits_from
generate_secure_code length draw = if ltb length 4 then none else some (digits_from draw 0 length)

module _ (crypto : Crypto) where
  unfoldable pub code_fingerprint : Text → Text
  code_fingerprint code = crypto.hmac_hex code

  -- `salt` is the random `secrets.token_hex(16)`.
  unfoldable pub hash_code : (salt code : Text) → Text
  hash_code salt code = salt ++ b'$' ∷ crypto.pbkdf2_hex code salt

  -- The unpacking of `stored.split("$")` fails unless there are two parts.
  verify_parts : Text → List Text → Bool
  verify_parts code (salt ∷ digest_hex ∷ []) = text_eq (crypto.pbkdf2_hex code salt) digest_hex
  verify_parts code _ = false

  unfoldable pub verify_code : (code stored : Text) → Bool
  unfolding split verify_parts
  verify_code code stored = verify_parts code (split b'$' stored)
