-- ===== src/Auth/Passwords/Keys.antt =====
-- A stored hash verifies the text that it was made of, and a minted key opens its station.
use fuel_monitoring.Prelude.{
  ap, ◌∙◌, ℕ, ◌≡◌, refl, ◌≢◌, true, Option, some, List, [], ◌∷◌, ◌++◌, Text, codes, text_eq,
  text_eq_refl, length, All, Bool-cases, inl, inr, if◌then◌else◌, arith,
}
use fuel_monitoring.Security.{split}
use fuel_monitoring.Security.Codes.{split-no_sep, split-part}
use fuel_monitoring.Auth.Passwords.{
  Kdf, Station, accepted, device_key_iterations, pbkdf2_iterations, hash_bytes, hash_device_key,
  hash_password, verify_device_key, verify_password, get_station_by_serial, authenticate_station,
  verified_fields, unauthorized,
}

-- Documented behaviour of hashlib, base64 and `int`.
pub record KdfLaws (kdf : Kdf) : Type 0 where
  pub length-pbkdf2 :
      (plain : Text) (salt : List ℕ) (n dklen : ℕ) (dk : List ℕ)
      → kdf.pbkdf2 plain salt n dklen ≡ some dk
      → length dk ≡ dklen
  pub b64decode-b64encode : (bytes : List ℕ) → kdf.b64decode (kdf.b64encode bytes) ≡ some bytes
  pub b64encode_no_dollar : (bytes : List ℕ) → All (λ x. x ≢ b'$') (kdf.b64encode bytes)
  pub int_of_password_cost : kdf.int_of (codes "210000") ≡ some pbkdf2_iterations
  pub int_of_key_cost : kdf.int_of (codes "120000") ≡ some device_key_iterations

-- A text with the scheme and the cost of a hash before it.
split_scheme :
    (scheme cost t : Text)
    → All (λ x. x ≢ b'$') scheme
    → All (λ x. x ≢ b'$') cost
    → split b'$' (scheme ++ b'$' ∷ (cost ++ b'$' ∷ t)) ≡ scheme ∷ cost ∷ split b'$' t
split_scheme scheme cost t h k =
    rw (split-part b'$' scheme (cost ++ b'$' ∷ t) h, split-part b'$' cost t k) refl

split_password :
    (t : Text)
    → split b'$' (codes "$pbkdf2-sha256$210000" ++ b'$' ∷ t)
      ≡ [] ∷ codes "pbkdf2-sha256" ∷ codes "210000" ∷ split b'$' t
split_password t =
    split-part b'$' [] (codes "pbkdf2-sha256" ++ b'$' ∷ (codes "210000" ++ b'$' ∷ t)) tt
    ∙ ap (λ (l : List Text). [] ∷ l)
        (split_scheme (codes "pbkdf2-sha256") (codes "210000") t (omega arith) (omega arith))

module _ (kdf : Kdf) (laws : KdfLaws kdf) (salt : List ℕ) (plain : Text) where
  -- The parts of a stored text after its scheme.
  split_digests :
      (dk : List ℕ)
      → split b'$' (kdf.b64encode salt ++ b'$' ∷ kdf.b64encode dk)
        ≡ kdf.b64encode salt ∷ kdf.b64encode dk ∷ []
  split_digests dk =
      rw
        (
          split-part b'$' (kdf.b64encode salt) (kdf.b64encode dk) (laws.b64encode_no_dollar salt),
          split-no_sep b'$' (kdf.b64encode dk) (laws.b64encode_no_dollar dk),
        )
        refl

  -- The comparison of a derived key with the one that is stored.
  verified_again :
      (cost : Text) (n : ℕ) (dk : List ℕ)
      → kdf.int_of cost ≡ some n
      → kdf.pbkdf2 plain salt n hash_bytes ≡ some dk
      → verified_fields kdf plain cost (kdf.b64encode salt) (kdf.b64encode dk) ≡ some true
  verified_again cost n dk costs made =
      rw
        (
          costs,
          laws.b64decode-b64encode salt,
          laws.b64decode-b64encode dk,
          laws.length-pbkdf2 plain salt n hash_bytes dk made,
          made,
          text_eq_refl dk,
        )
        refl

  -- A password verifies against its hash.
  pub verify_password-hash :
      (dk : List ℕ)
      → kdf.pbkdf2 plain salt pbkdf2_iterations hash_bytes ≡ some dk
      → (hash : Text) × (hash_password kdf salt plain ≡ some hash)
        × (verify_password kdf plain hash ≡ some true)
  unfolding hash_password verify_password
  verify_password-hash dk made =
      let digests = kdf.b64encode salt ++ b'$' ∷ kdf.b64encode dk in
      (
        codes "$pbkdf2-sha256$210000" ++ b'$' ∷ digests,
        rw made refl,
        rw (split_password digests, split_digests dk, text_eq_refl (codes "pbkdf2-sha256"))
            (verified_again (codes "210000") pbkdf2_iterations dk laws.int_of_password_cost made),
      )

  -- A key that is presented for a station whose hash was made of another key, or of the same one, is
  -- accepted exactly when both keys derive the same bytes under the salt of the hash.
  pub authenticate_station-key :
      (uuid_of : Text → Option ℕ) (i k : ℕ) (id key : Text) (dk dk' : List ℕ) (s : Station)
      (stations : List Station)
      → kdf.pbkdf2 plain salt device_key_iterations hash_bytes ≡ some dk
      → kdf.pbkdf2 (k ∷ key) salt device_key_iterations hash_bytes ≡ some dk'
      → s.api_key_hash ≡ hash_device_key kdf salt plain
      → get_station_by_serial uuid_of (i ∷ id) stations ≡ some s
      → authenticate_station kdf uuid_of (some (i ∷ id)) (some (k ∷ key)) stations
        ≡ (if text_eq dk' dk then accepted s else unauthorized)
  unfolding hash_device_key verify_device_key authenticate_station
  authenticate_station-key uuid_of i k id key dk dk' s stations made derived stored found =
      let digests = kdf.b64encode salt ++ b'$' ∷ kdf.b64encode dk in
      rw
        (
          found,
          stored,
          made,
          split_scheme (codes "pbkdf2_sha256") (codes "120000") digests (omega arith) (omega arith),
          split_digests dk,
          text_eq_refl (codes "pbkdf2_sha256"),
          laws.int_of_key_cost,
          laws.b64decode-b64encode salt,
          laws.b64decode-b64encode dk,
          laws.length-pbkdf2 plain salt device_key_iterations hash_bytes dk made,
          derived,
        )
        (elim (Bool-cases (text_eq dk' dk)) [ inl e ↦ rw e refl | inr e ↦ rw e refl ])
