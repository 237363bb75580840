-- ===== src/Security/Codes.antt =====
-- Laws of the code secrets.
use fuel_monitoring.Prelude.{
  ap, ◌∙◌, List, ℕ, zero, suc, ◌+◌, ◌≤◌, ◌≡◌, refl, ◌≢◌, true, some, [], ◌∷◌, ◌++◌, Text,
  text_eq_refl, length, All, arith,
}
use fuel_monitoring.Security.{
  Crypto, HexDigests, split, digits_from, generate_secure_code, hash_code, verify_code,
  verify_parts,
}

-- A text with no separator is one part.
pub split-no_sep : (sep : ℕ) (s : Text) → All (λ x. x ≢ sep) s → split sep s ≡ s ∷ []
unfolding split
split-no_sep sep [] h = refl
split-no_sep sep (x ∷ s) h = ground (arith, split-no_sep sep s h.1)

-- A text with no separator before one is the first part.
pub split-part :
    (sep : ℕ) (s t : Text) → All (λ x. x ≢ sep) s → split sep (s ++ sep ∷ t) ≡ s ∷ split sep t
unfolding split
split-part sep [] t h = ground arith
split-part sep (x ∷ s) t h = ground (arith, split-part sep s t h.1)

-- Two texts with no separator, joined by one, are two parts.
split-join :
    (sep : ℕ) (s t : Text)
    → All (λ x. x ≢ sep) s
    → All (λ x. x ≢ sep) t
    → split sep (s ++ sep ∷ t) ≡ s ∷ t ∷ []
split-join sep s t h k = split-part sep s t h ∙ ap (λ (l : List Text). s ∷ l) (split-no_sep sep t k)

-- A code verifies against its own salted hash, for every salt with no `$`.
pub verify-hash :
    (c : Crypto) (salt code : Text)
    → HexDigests c
    → All (λ x. x ≢ b'$') salt
    → verify_code c code (hash_code c salt code) ≡ true
unfolding verify_code hash_code verify_parts
verify-hash c salt code hex salt_hex =
    rw (split-join b'$' salt (c.pbkdf2_hex code salt) salt_hex (hex.pbkdf2_no_dollar code salt))
      (text_eq_refl (c.pbkdf2_hex code salt))

abbrev pub IsDigit : ℕ → Type 0
IsDigit x = (b'0' ≤ x) × (x ≤ b'9')

digits_from_lem :
    (draw : ℕ → ℕ) (i n : ℕ)
    → (length (digits_from draw i n) ≡ n) × All IsDigit (digits_from draw i n)
unfolding digits_from
digits_from_lem draw i zero = (refl, tt)
digits_from_lem draw i (suc n) = ground (arith, digits_from_lem draw (i + 1) n)

-- From length 4 on a code is made, of exactly that many decimal digits.
pub generate_secure_code_digits :
    (n : ℕ) (draw : ℕ → ℕ)
    → 4 ≤ n
    → (code : Text) × (generate_secure_code n draw ≡ some code)
      × (length code ≡ n)
      × All IsDigit code
unfolding generate_secure_code
generate_secure_code_digits n draw h =
    (digits_from draw 0 n, ground arith, (digits_from_lem draw 0 n).0, (digits_from_lem draw 0 n).1)
