-- ===== src/Dispensing/Bench.antt =====
-- Stand-ins for the tests of the dispensing subsystem: hashes, and an empty Redis server.
use fuel_monitoring.Prelude.{◌+◌, ◌*◌, ◌≢◌, false, none, [], ◌∷◌, ◌++◌, map, Text, arith, All}
use fuel_monitoring.Redis.{Redis, RedisLaws}
use fuel_monitoring.Redis.Memory.{Memory, memory_redis, memory_laws}
use fuel_monitoring.Security.{Crypto, HexDigests}
use fuel_monitoring.Dispensing.Keys.{Key, key_eq, key_eq_sound, key_eq_refl, Value}

-- A keyed hash and a salted hash that stand in for HMAC and PBKDF2.
abbrev pub crypto : Crypto
crypto = record {
  hmac_hex = λ code. 7 ∷ code;
  pbkdf2_hex = λ code salt. map (λ x. x * 2 + 1) (salt ++ code);
}

odd_no_dollar : (s : Text) → All (λ x. x ≢ b'$') (map (λ x. x * 2 + 1) s)
odd_no_dollar [] = tt
odd_no_dollar (x ∷ s) = (omega arith, odd_no_dollar s)

pub hex : HexDigests crypto
hex = record { pbkdf2_no_dollar = λ code salt. odd_no_dollar (salt ++ code) }

abbrev pub server : Redis Key Value
server = memory_redis key_eq

pub laws : RedisLaws server
laws = memory_laws key_eq key_eq_sound key_eq_refl

abbrev pub empty : Memory Key Value
empty = record { members = λ k m. false; values = λ k. none; scores = λ k. [] }
