-- ===== src/Dispensing/Keys.antt =====
-- The Redis keys of the dispensing engine, one constructor for each prefix, and the cached values.
use fuel_monitoring.Prelude.{
  ℕ, ◌≡◌, refl, Bool, true, false, Option, Text, text_eq, text_eq→eq, text_eq_refl, arith, ap, ◌==◌,
}

pub data Key : Type 0 where
  -- "dispense:used_fingerprints"
  consumed_set : Key
  -- "dispense:lock:" and "dispense:code:", with a fingerprint
  lock code_cache : Text → Key
  -- "dispense:validate:", with a station
  validate_rate : ℕ → Key

-- The JSON that the validate path caches, and the "1" of a lock.
pub record CachedCode : Type 0 where
  pub code_id : Option ℕ
  pub allocation_id : ℕ
  pub employee_name : Text
  pub remaining_liters : ℕ

pub data Value : Type 0 where
  marker : Value
  cached : CachedCode → Value

unfoldable pub key_eq : Key → Key → Bool
key_eq consumed_set consumed_set = true
key_eq (lock a) (lock b) = text_eq a b
key_eq (code_cache a) (code_cache b) = text_eq a b
key_eq (validate_rate a) (validate_rate b) = a == b
key_eq _ _ = false

pub key_eq_sound : (a b : Key) → key_eq a b ≡ true → a ≡ b
unfolding key_eq
key_eq_sound consumed_set consumed_set h = refl
key_eq_sound (lock a) (lock b) h = ap lock (text_eq→eq a b h)
key_eq_sound (code_cache a) (code_cache b) h = ap code_cache (text_eq→eq a b h)
key_eq_sound (validate_rate a) (validate_rate b) h = ground arith
key_eq_sound _ _ h = cc

pub key_eq_refl : (a : Key) → key_eq a a ≡ true
unfolding key_eq
key_eq_refl consumed_set = refl
key_eq_refl (lock a) = text_eq_refl a
key_eq_refl (code_cache a) = text_eq_refl a
key_eq_refl (validate_rate a) = ground arith
