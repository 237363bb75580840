-- ===== src/Dispensing/Admission.antt =====
-- When `validate_code` lets a code dispense.
use fuel_monitoring.Prelude.{
  ℕ, ◌≤◌, ◌<◌, ◌≡◌, refl, ◌≢◌, ◌⊎◌, Bool-cases, Option-cases, inl, inr, Bool, true, false, Option,
  none, some, Text, arith,
}
use fuel_monitoring.Redis.{Redis, rate_limit}
use fuel_monitoring.Security.{Crypto, code_fingerprint}
use fuel_monitoring.Dispensing.Keys.{
  Key, consumed_set, code_cache, validate_rate, Value, marker, cached, CachedCode,
}
use fuel_monitoring.Dispensing.Models.{
  Allocation, AllocationStatus, DispenseCode, CodeStatus, Result, ok, err,
}
use fuel_monitoring.Dispensing.Engine.Lookup.{World, lookup_code}
use fuel_monitoring.Dispensing.Engine.Validation.{
  ValidateRequest, ValidateResponse, state_check, admit, validate_row, validate_cached,
  validate_code, code_rate_limit_per_min, valid_from_cache, payload,
}

-- The states in which a code may dispense.
pub record IsAdmissible (now : ℕ) (c : DispenseCode) (a : Allocation) : Type 0 where
  pub active : c.status ≡ CodeStatus.active
  pub attempts_left : c.attempt_count < c.max_attempts
  pub unexpired : (t : ℕ) → c.expires_at ≡ some t → now ≤ t
  pub unfulfilled : a.status ≢ AllocationStatus.fulfilled
  pub not_void : a.status ≢ AllocationStatus.void

state_check-IsAdmissible :
    (now : ℕ) (c : DispenseCode) (a : Allocation)
    → state_check now c a ≡ none
    → IsAdmissible now c a
unfolding state_check
state_check-IsAdmissible now c a h = record {
  active = ground arith;
  attempts_left = ground arith;
  unexpired = λ t e. ground arith;
  unfulfilled = λ e. ground arith;
  not_void = λ e. ground arith;
}

IsAdmissible-state_check :
    (now : ℕ) (c : DispenseCode) (a : Allocation)
    → IsAdmissible now c a
    → state_check now c a ≡ none
unfolding state_check
IsAdmissible-state_check now c a h = elim (Option-cases c.expires_at) [
  | inl never ↦ ground arith
  | inr (t, e) ↦ ground (arith, h.unexpired t e)
]

module _ (crypto : Crypto) (r : Redis Key Value) (now now_ms : ℕ) (req : ValidateRequest) where
  abbrev pub fp : Text
  fp = code_fingerprint crypto req.code

  abbrev pub limited : r.Store → (Bool × ℕ) × r.Store
  limited s = rate_limit r now_ms (validate_rate req.station_id) code_rate_limit_per_min 60 s

  -- What stands behind a positive answer.
  abbrev pub Grounds : ValidateResponse → World r → Type 0
  Grounds x w =
      ((v : CachedCode) × (r.get (code_cache fp) (limited w.store).1 ≡ some (cached v))
        × (x.remaining_liters ≡ some v.remaining_liters)
        × (x.code_id ≡ v.code_id))
      ⊎ ((c : DispenseCode) × (a : Allocation) × (lookup_code crypto req.code w.db
            ≡ ok (some (c, a)))
          × IsAdmissible now c a
          × (x.remaining_liters ≡ some a.remaining_liters)
          × (x.code_id ≡ some c.id))

  validate_row-Grounds :
      (m : Result (Option (DispenseCode × Allocation))) (w : World r) (x : ValidateResponse)
      → (s : r.Store) → lookup_code crypto req.code w.db ≡ m
      → (validate_row crypto r now fp m (record w { store = s })).0 ≡ ok x
      → x.valid ≡ true
      → Grounds x w
  unfolding validate_row
  validate_row-Grounds (err e) w x s q h v = absurd (cc)
  validate_row-Grounds (ok none) w x s q h v = absurd (ground arith)
  validate_row-Grounds (ok (some (c, a))) w x s q h v = elim (Option-cases (state_check now c a)) [
    | inr (why, e) ↦ absurd (unfold admit in ground arith)
    | inl pass ↦
        let answer = rw pass at h in
        inr (
          c,
          a,
          q,
          state_check-IsAdmissible now c a pass,
          unfold admit in ground arith,
          unfold admit in ground arith,
        )
  ]

  validate_cached-Grounds :
      (hit : Option Value) (w : World r) (x : ValidateResponse)
      → r.get (code_cache fp) (limited w.store).1 ≡ hit
      → (validate_cached crypto r now req.code hit (record w { store = (limited w.store).1 })).0
        ≡ ok x
      → x.valid ≡ true
      → Grounds x w
  unfolding validate_cached
  validate_cached-Grounds (some marker) w x q h valid = absurd (cc)
  validate_cached-Grounds (some (cached v)) w x q h valid = inl (v, q, ground arith, ground arith)
  validate_cached-Grounds none w x q h valid =
      validate_row-Grounds (lookup_code crypto req.code w.db) w x (limited w.store).1 refl h valid

  -- A code is accepted only when it is not consumed, its station is within its rate, and either the
  -- cache holds an entry for the code, of which the answer repeats the code's id and the litres, or the
  -- database has the code in an admissible state; then the answer names that code and the litres that
  -- its allocation has left.
  pub validate_code-Grounds :
      (w : World r) (x : ValidateResponse)
      → (validate_code crypto r now now_ms req w).0 ≡ ok x
      → x.valid ≡ true
      → (r.sismember consumed_set fp w.store ≡ false) × ((limited w.store).0.0 ≡ true) × Grounds x w
  unfolding validate_code
  validate_code-Grounds w x h valid = elim (Bool-cases (r.sismember consumed_set fp w.store)) [
    | inl t ↦ absurd (ground arith)
    | inr f ↦ elim (Bool-cases (limited w.store).0.0) [
      | inr stop ↦ absurd (ground arith)
      | inl go ↦ (
        f,
        go,
        validate_cached-Grounds (r.get (code_cache fp) (limited w.store).1) w x refl
            (rw (f, go) at h) valid,
      )
    ]
  ]

  -- An admissible code that is neither consumed nor cached is accepted at a station within its rate.
  pub validate_code_accepts :
      (w : World r) (c : DispenseCode) (a : Allocation)
      → r.sismember consumed_set fp w.store ≡ false
      → (limited w.store).0.0 ≡ true
      → r.get (code_cache fp) (limited w.store).1 ≡ none
      → lookup_code crypto req.code w.db ≡ ok (some (c, a))
      → IsAdmissible now c a
      → (x : ValidateResponse) × ((validate_code crypto r now now_ms req w).0 ≡ ok x)
        × (x.valid ≡ true)
        × (x.remaining_liters ≡ some a.remaining_liters)
  unfolding validate_code validate_cached validate_row admit
  validate_code_accepts w c a unused go miss row good =
      rw (unused, go, miss, row, IsAdmissible-state_check now c a good)
        (valid_from_cache (payload c a), refl, refl, refl)
