-- ===== src/Auth/Passwords.antt =====
-- Password hashes and policy (platform/fmp/core/security.py) and station keys
-- (platform/fmp/core/device_auth.py). PBKDF2, base64 and `int` of a text are parameters.
pub mod Keys
use fuel_monitoring.Prelude.{
  ℕ, ◌+◌, Bool, true, false, not, Option, none, some, List, [], ◌∷◌, ◌++◌, Text, codes, text_eq,
  length, any, keep_if, ltb, ◌==◌, ◌||◌, if◌then◌else◌,
}
use fuel_monitoring.Security.{split}
use fuel_monitoring.Auth.Login.{Response, answer, refused}

pub record Kdf : Type 0 where
  -- `hashlib.pbkdf2_hmac("sha256", plain, salt, iterations, dklen)`, on bytes; it raises for no
  -- iterations and for no length
  pub pbkdf2 : (plain : Text) → (salt : List ℕ) → (iterations dklen : ℕ) → Option (List ℕ)
  pub b64encode : List ℕ → Text
  pub b64decode : Text → Option (List ℕ)
  -- `int(text)`, a negative number as 0; none is a `ValueError`
  pub int_of : Text → Option ℕ

abbrev pub pbkdf2_iterations : ℕ
pbkdf2_iterations = 210000

abbrev pub device_key_iterations : ℕ
device_key_iterations = 120000

abbrev pub hash_bytes : ℕ
hash_bytes = 32

abbrev pub password_min_length : ℕ
password_min_length = 8

module _ (kdf : Kdf) where
  -- `{salt}${dk}` of a derived key; none is an exception of PBKDF2
  abbrev pub encoded : (scheme : Text) → List ℕ → Option (List ℕ) → Option Text
  encoded scheme salt none = none
  encoded scheme salt (some dk) =
      some (scheme ++ (b'$' ∷ (kdf.b64encode salt ++ b'$' ∷ kdf.b64encode dk)))

  -- `hash_password`, with the random salt
  unfoldable pub hash_password : (salt : List ℕ) → Text → Option Text
  hash_password salt plain =
      encoded (codes "$pbkdf2-sha256$210000") salt
        (kdf.pbkdf2 plain salt pbkdf2_iterations hash_bytes)

  -- `_hash_device_key`
  unfoldable pub hash_device_key : (salt : List ℕ) → Text → Option Text
  hash_device_key salt plain =
      encoded (codes "pbkdf2_sha256$120000") salt
        (kdf.pbkdf2 plain salt device_key_iterations hash_bytes)

  -- A comparison of digests; none is an exception that leaves the function.
  abbrev pub compared : List ℕ → Option (List ℕ) → Option Bool
  compared expected none = none
  compared expected (some dk) = some (text_eq dk expected)

  -- The three conversions under one `try`.
  abbrev pub derived : Text → Option ℕ → Option (List ℕ) → Option (List ℕ) → Option Bool
  derived plain (some iterations) (some salt) (some expected) =
      compared expected (kdf.pbkdf2 plain salt iterations (length expected))
  derived plain _ _ _ = some false

  abbrev pub verified_fields : (plain iterations salt expected : Text) → Option Bool
  verified_fields plain iterations salt expected =
      derived plain (kdf.int_of iterations) (kdf.b64decode salt) (kdf.b64decode expected)

  abbrev pub verify_password_parts : Text → List Text → Option Bool
  verify_password_parts plain (empty ∷ scheme ∷ iterations ∷ salt ∷ expected ∷ []) =
      if text_eq scheme (codes "pbkdf2-sha256")
      then verified_fields plain iterations salt expected
      else some false
  verify_password_parts plain _ = some false

  -- `verify_password`
  unfoldable pub verify_password : (plain stored : Text) → Option Bool
  verify_password plain stored = verify_password_parts plain (split b'$' stored)

  abbrev pub verify_key_parts : Text → List Text → Option Bool
  verify_key_parts plain (scheme ∷ iterations ∷ salt ∷ expected ∷ []) =
      if text_eq scheme (codes "pbkdf2_sha256")
      then verified_fields plain iterations salt expected
      else some false
  verify_key_parts plain _ = some false

  -- `_verify_device_key`
  unfoldable pub verify_device_key : (plain stored : Text) → Option Bool
  verify_device_key plain stored = verify_key_parts plain (split b'$' stored)

-- `generate_station_key` without its hash: "fmk_" and the random text, and the prefix that is kept.
abbrev take : ℕ → Text → Text
take ℕ.zero s = []
take (ℕ.suc n) [] = []
take (ℕ.suc n) (c ∷ s) = c ∷ take n s

unfoldable pub station_key : (random : Text) → Text × Text
station_key random = let plain = codes "fmk_" ++ random in (plain, take 12 plain)

-- The character classes of `str`.
pub record CharClasses : Type 0 where
  pub islower : ℕ → Bool
  pub isupper : ℕ → Bool
  pub isdigit : ℕ → Bool
  pub isalnum : ℕ → Bool

pub data Violation : Type 0 where
  too_short too_few_classes : Violation

abbrev one_if : Bool → ℕ
one_if b = if b then 1 else 0

-- `validate_password_complexity`
unfoldable pub class_present : CharClasses → Text → ℕ
class_present k s =
    one_if (any k.islower s)
    + one_if (any k.isupper s)
    + (one_if (any k.isdigit s) + one_if (any (λ c. not (k.isalnum c)) s))

unfoldable pub validate_password_complexity : CharClasses → Text → List Violation
unfolding class_present
validate_password_complexity k s =
    (if ltb (length s) password_min_length then too_short ∷ [] else [])
    ++ (if ltb (class_present k s) 3 then too_few_classes ∷ [] else [])

pub record Station : Type 0 where
  pub id : ℕ
  pub serial_number : Text
  pub raspberry_pi_id : Option Text
  pub api_key_hash : Option Text
  pub site_id : ℕ

abbrev is_pi : Option Text → Text → Bool
is_pi none t = false
is_pi (some p) t = text_eq p t

abbrev first : List Station → Option Station
first [] = none
first (s ∷ rest) = some s

abbrev by_id : Option ℕ → List Station → Option Station
by_id none stations = none
by_id (some id) stations = first (keep_if (λ s. s.id == id) stations)

abbrev or_else : Option Station → Option Station → Option Station
or_else none o = o
or_else (some s) o = some s

-- `get_station_by_serial`; `uuid_of` reads a UUID, an id is a primary key.
unfoldable pub get_station_by_serial : (Text → Option ℕ) → Text → List Station → Option Station
get_station_by_serial uuid_of t stations =
    or_else (by_id (uuid_of t) stations)
      (first (keep_if (λ s. text_eq s.serial_number t || is_pi s.raspberry_pi_id t) stations))

-- An answer to a device: its station, a 401, or the exception of a hash that PBKDF2 refuses.
pub data DeviceAnswer : Type 0 where
  accepted : Station → DeviceAnswer
  unauthorized raised : DeviceAnswer

module _ (kdf : Kdf) (uuid_of : Text → Option ℕ) where
  abbrev judged : Station → Option Bool → DeviceAnswer
  judged s none = raised
  judged s (some true) = accepted s
  judged s (some false) = unauthorized

  abbrev with_hash : Text → Station → Option Text → DeviceAnswer
  with_hash key s none = unauthorized
  with_hash key s (some []) = unauthorized
  with_hash key s (some (c ∷ hash)) = judged s (verify_device_key kdf key (c ∷ hash))

  abbrev with_station : Text → Option Station → DeviceAnswer
  with_station key none = unauthorized
  with_station key (some s) = with_hash key s s.api_key_hash

  abbrev presented : Option Text → Option Text → List Station → DeviceAnswer
  presented (some (i ∷ id)) (some (k ∷ key)) stations =
      with_station (k ∷ key) (get_station_by_serial uuid_of (i ∷ id) stations)
  presented _ _ stations = unauthorized

  -- `authenticate_station`: a missing or empty header is refused like a wrong key.
  unfoldable pub authenticate_station : (id key : Option Text) → List Station → DeviceAnswer
  authenticate_station id key stations = presented id key stations

abbrev key_matches : Text → Option Text → Response Bool
key_matches expected (some (c ∷ key)) =
    if text_eq (c ∷ key) expected then answer true else refused 401
key_matches expected _ = refused 401

-- `require_ingest_key`: an empty setting disables the route.
unfoldable pub require_ingest_key : (expected : Text) → (header : Option Text) → Response Bool
require_ingest_key [] header = refused 404
require_ingest_key (c ∷ expected) header = key_matches (c ∷ expected) header
