-- ===== src/Dispensing/Models.antt =====
-- The tables of platform/fmp/models/dispensing.py, the request and response schemas of
-- platform/fmp/schemas/dispensing.py, and the queries on them.
-- A column of litres holds millilitres: the code stores what `round(·, 3)` returns. A quantity in a
-- request is in microlitres, before that rounding. A time is in seconds, an id a number.
use fuel_monitoring.Prelude.{
  ℕ, ◌+◌, ◌/◌, ◌%◌, ◌≡◌, refl, ◌⊎◌, inl, inr, Bool, true, false, Option, none, some, List, [], ◌∷◌,
  Text, text_eq, keep_if, ltb, ◌==◌, if◌then◌else◌,
}

-- `other` stands for any other string of the column.
pub data AllocationStatus : Type 0 where
  pending partial_fulfilled fulfilled void other : AllocationStatus

pub data CodeStatus : Type 0 where
  active consumed other : CodeStatus

pub data TxnStatus : Type 0 where
  completed over_dispense : TxnStatus

-- `employee_name` is `allocation.employee.name`, through the relationship; `none` is no employee.
pub record Allocation : Type 0 where
  pub id : ℕ
  pub employee_id : ℕ
  pub employee_name : Option Text
  pub upload_batch_id : ℕ
  pub company_id : ℕ
  pub invoice_number : Option Text
  pub allocated_liters : ℕ
  pub dispensed_liters : ℕ
  pub remaining_liters : ℕ
  pub status : AllocationStatus

pub record DispenseCode : Type 0 where
  pub id : ℕ
  pub allocation_id : ℕ
  pub code_hash : Text
  pub code_fp : Text
  pub code_length : ℕ
  pub authorized_liters : ℕ
  pub consumed_liters : ℕ
  pub status : CodeStatus
  pub max_attempts : ℕ
  pub attempt_count : ℕ
  pub expires_at : Option ℕ
  pub used_at : Option ℕ

pub record DispenseTransaction : Type 0 where
  pub id : ℕ
  pub station_id : ℕ
  pub dispenser_id : ℕ
  pub code_id : ℕ
  pub employee_id : ℕ
  pub allocation_id : ℕ
  pub requested_liters : ℕ
  pub actual_liters : ℕ
  pub secret_totalizer_before : ℕ
  pub secret_totalizer_after : ℕ
  pub status : TxnStatus

pub record StationTotalizer : Type 0 where
  pub station_id : ℕ
  pub dispenser_id : ℕ
  pub totalizer_value : ℕ
  pub cumulative_liters : ℕ

-- The tables. Transactions and totalizers stand newest first, as `created_at.desc()` lists them.
pub record Db : Type 0 where
  pub allocations : List Allocation
  pub codes : List DispenseCode
  pub txns : List DispenseTransaction
  pub totalizers : List StationTotalizer
  -- the autoincrement of `DispenseTransaction.id`
  pub next_txn_id : ℕ

pub record CompleteRequest : Type 0 where
  pub code : Text
  pub station_id : ℕ
  pub dispenser_id : ℕ
  pub requested_liters : ℕ
  pub actual_liters : ℕ
  pub secret_totalizer_before : ℕ
  pub secret_totalizer_after : ℕ

pub record PartialOutcome : Type 0 where
  pub is_partial : Bool
  pub original_code_id : ℕ
  pub dispensed_liters : ℕ
  pub remaining_liters : ℕ
  pub new_code : Option Text
  pub new_code_id : Option ℕ
  pub new_allocation_id : Option ℕ

-- The strings that the code passes as `status`; the schema's `Literal` has no "REJECTED".
pub data ResponseStatus : Type 0 where
  completed is_partial over_dispense rejected : ResponseStatus

pub record CompleteResponse : Type 0 where
  pub success : Bool
  pub transaction_id : ℕ
  pub status : ResponseStatus
  pub actual_liters : ℕ
  pub requested_liters : ℕ
  pub outcome : Option PartialOutcome

-- The exceptions that leave these functions.
pub data Error : Type 0 where
  lock_busy code_generation code_length integrity validation multiple_results bad_cache
        redis_error :
      Error

pub data Result {ℓ} (A : Type ℓ) : Type ℓ where
  ok : A → Result A
  err : Error → Result A

infixl 5 ◌>>=◌
abbrev pub ◌>>=◌ {ℓ κ} : {A : Type ℓ} {B : Type κ} → Result A → (A → Result B) → Result B
ok a >>= f = f a
err e >>= f = err e

-- To split on how a computation ended, and keep the equation.
pub Result-cases {ℓ} :
    {A : Type ℓ} (m : Result A) → ((a : A) × (m ≡ ok a)) ⊎ ((e : Error) × (m ≡ err e))
Result-cases (ok a) = inl (a, refl)
Result-cases (err e) = inr (e, refl)

-- `round(x, 3)` on microlitres: to the nearest millilitre, halves to the even one.
unfoldable pub round3 : ℕ → ℕ
round3 u =
    let q = u / 1000 in
    let r = u % 1000 in if ltb r 500 then q else if ltb 500 r then q + 1 else q + q % 2

-- `scalar_one_or_none()`
abbrev pub scalar_one_or_none {ℓ} : {A : Type ℓ} → List A → Result (Option A)
scalar_one_or_none [] = ok none
scalar_one_or_none (x ∷ []) = ok (some x)
scalar_one_or_none (x ∷ y ∷ xs) = err multiple_results

-- The `UPDATE ... WHERE id = :id` that a commit sends for a row that was changed.
unfoldable pub update_code :
    ℕ → (DispenseCode → DispenseCode) → List DispenseCode → List DispenseCode
update_code id set [] = []
update_code id set (c ∷ cs) = (if c.id == id then set c else c) ∷ update_code id set cs

unfoldable pub update_allocation : ℕ → (Allocation → Allocation) → List Allocation → List Allocation
update_allocation id set [] = []
update_allocation id set (a ∷ rest) =
    (if a.id == id then set a else a) ∷ update_allocation id set rest

-- `select(DispenseCode).where(DispenseCode.code_fp == fp)`, and so on
abbrev pub codes_with_fp : Text → Db → List DispenseCode
codes_with_fp fp db = keep_if (λ c. text_eq c.code_fp fp) db.codes

abbrev pub codes_with_hash : Text → Db → List DispenseCode
codes_with_hash h db = keep_if (λ c. text_eq c.code_hash h) db.codes

abbrev pub allocations_with_id : ℕ → Db → List Allocation
allocations_with_id i db = keep_if (λ a. a.id == i) db.allocations

abbrev is_found {ℓ} : {A : Type ℓ} → Option A → Bool
is_found none = false
is_found (some a) = true

-- `_fp_exists` and `_hash_exists`: `scalar_one_or_none() is not None`
unfoldable pub fp_exists : Db → Text → Result Bool
fp_exists db fp = scalar_one_or_none (codes_with_fp fp db) >>= λ o. ok (is_found o)

unfoldable pub hash_exists : Db → Text → Result Bool
hash_exists db h = scalar_one_or_none (codes_with_hash h db) >>= λ o. ok (is_found o)
