-- ===== src/Dispensing/Generator.antt =====
-- platform/fmp/services/dispensing/code_generator.py: codes that are new to Redis and the database.
pub mod Laws
use fuel_monitoring.Prelude.{
  ℕ, zero, suc, ◌+◌, ◌-◌, ◌*◌, ◌%◌, Bool, true, false, Option, none, some, Text, if◌then◌else◌,
}
use fuel_monitoring.Redis.{Redis}
use fuel_monitoring.Security.{Crypto, generate_secure_code, code_fingerprint, hash_code}
use fuel_monitoring.Dispensing.Keys.{Key, consumed_set, Value}
use fuel_monitoring.Dispensing.Models.{Result, ok, err, ◌>>=◌, code_generation, code_length}

-- The defaults of platform/fmp/core/config.py.
abbrev pub code_length_min : ℕ
code_length_min = 6

abbrev pub code_length_max : ℕ
code_length_max = 8

abbrev pub code_ttl_days : ℕ
code_ttl_days = 7

abbrev pub max_collision_attempts : ℕ
max_collision_attempts = 5

-- What `secrets` returns: the choice of a length, and for each attempt the digits and the salt.
pub record Draws : Type 0 where
  pub length_choice : ℕ
  pub digit : (attempt place : ℕ) → ℕ
  pub salt : (attempt : ℕ) → Text

-- A generated code: its plaintext, its salted hash, its fingerprint.
pub record Generated : Type 0 where
  pub code : Text
  pub code_hash : Text
  pub code_fp : Text

-- `check is not None and await check(x)`
abbrev pub run_check : Option (Text → Result Bool) → Text → Result Bool
run_check none x = ok false
run_check (some check) x = check x

abbrev made : Option Text → Result Text
made none = err code_length
made (some code) = ok code

-- `length or secrets.choice(range(CODE_LENGTH_MIN, CODE_LENGTH_MAX + 1))`
unfoldable pub choose_length : Option ℕ → ℕ → ℕ
choose_length (some (suc n)) choice = suc n
choose_length _ choice = code_length_min + choice % (code_length_max + 1 - code_length_min)

module _ (crypto : Crypto) (r : Redis Key Value) (s : r.Store) where
  -- `_fp_known`
  abbrev pub fp_known : Text → Bool
  fp_known fp = r.sismember consumed_set fp s

  module _ (draws : Draws)
      (existing_hashes existing_fingerprints : Option (Text → Result Bool)) where
    -- Whether the loop goes on to the next attempt with this candidate.
    unfoldable pub collides : Generated → Result Bool
    collides g = if fp_known g.code_fp then ok true else (do
      seen ← run_check existing_fingerprints g.code_fp
      if seen then ok true else run_check existing_hashes g.code_hash)

    abbrev pub candidate_of : (attempt : ℕ) → Text → Generated
    candidate_of i code = record {
      code = code;
      code_hash = hash_code crypto (draws.salt i) code;
      code_fp = code_fingerprint crypto code;
    }

    -- The candidate of one attempt.
    unfoldable pub candidate : (length attempt : ℕ) → Result Generated
    candidate length i = do
      code ← made (generate_secure_code length (draws.digit i))
      ok (candidate_of i code)

    -- The loop, with the attempts that are left and the number of this one.
    unfoldable pub generate_loop : (length left attempt : ℕ) → Result Generated
    generate_loop length zero i = err code_generation
    generate_loop length (suc left) i =
        let rest = generate_loop length left (i + 1) in
        do g ← candidate length i; again ← collides g; if again then rest else ok g

    unfoldable pub generate_unique_code : Option ℕ → Result Generated
    generate_unique_code length =
        generate_loop (choose_length length draws.length_choice) max_collision_attempts 0

-- `code_expiry`, from the present time
unfoldable pub code_expiry : ℕ → ℕ
code_expiry now = now + code_ttl_days * 86400
