-- ===== src/Dispensing/Rows.antt =====
-- How the updates of rows show in the queries and in the sums over the tables.
use fuel_monitoring.Prelude.{
  ℕ, ◌+◌, ◌≡◌, refl, Bool, true, false, some, List, [], ◌∷◌, Text, text_eq, arith, any, keep_if,
  All, Bool-cases, inl, inr, ◌==◌, sym,
}
use fuel_monitoring.Dispensing.Models.{
  Allocation, DispenseCode, DispenseTransaction, ok, scalar_one_or_none, update_code,
  update_allocation,
}

module _ {A : Type 0} where
  -- The one row of a query is one that its test selects.
  pub keep_if-test : (p : A → Bool) (l : List A) (x : A) → keep_if p l ≡ x ∷ [] → p x ≡ true
  keep_if-test p [] x h = absurd (cc)
  keep_if-test p (y ∷ l) x h = elim (Bool-cases (p y)) [
    | inl t ↦ ground arith
    | inr f ↦ keep_if-test p l x (rw f at h)
  ]

  pub keep_if_unmatched : (p : A → Bool) (l : List A) → any p l ≡ false → keep_if p l ≡ []
  keep_if_unmatched p [] h = refl
  keep_if_unmatched p (y ∷ l) h = ground (arith, keep_if_unmatched p l)

  -- A weaker test that no row passes.
  pub any_weaken :
      (p q : A → Bool) (l : List A)
      → ((x : A) → p x ≡ true → q x ≡ true)
      → any q l ≡ false
      → any p l ≡ false
  any_weaken p q [] implies h = refl
  any_weaken p q (x ∷ l) implies h = ground (arith, implies x, any_weaken p q l implies)

  pub scalar-some : (l : List A) (x : A) → scalar_one_or_none l ≡ ok (some x) → l ≡ x ∷ []
  scalar-some [] x h = absurd (cc)
  scalar-some (y ∷ []) x h = ground arith
  scalar-some (y ∷ z ∷ l) x h = absurd (cc)

-- What holds of all rows holds of the one that a query selects.
pub All-keep_if {κ} :
    {A : Type 0} (P : A → Type κ) (p : A → Bool) (l : List A) (x : A)
    → keep_if p l ≡ x ∷ []
    → All P l
    → P x
All-keep_if P p [] x h all = absurd (cc)
All-keep_if P p (y ∷ l) x h all = elim (Bool-cases (p y)) [
  | inl t ↦ let same : y ≡ x = ground arith in rw (sym same) all.0
  | inr f ↦ All-keep_if P p l x (ground arith) all.1
]

-- An update that keeps the fingerprint commutes with the query by fingerprint.
pub keep_if-update_code :
    (fp : Text) (id : ℕ) (set : DispenseCode → DispenseCode) (cs : List DispenseCode)
    → ((c : DispenseCode) → (set c).code_fp ≡ c.code_fp)
    → keep_if (λ c. text_eq c.code_fp fp) (update_code id set cs)
      ≡ update_code id set (keep_if (λ c. text_eq c.code_fp fp) cs)
unfolding update_code
keep_if-update_code fp id set [] h = refl
keep_if-update_code fp id set (c ∷ cs) h = ground (arith, h c, keep_if-update_code fp id set cs h)

pub keep_if-update_allocation :
    (i id : ℕ) (set : Allocation → Allocation) (l : List Allocation)
    → ((a : Allocation) → (set a).id ≡ a.id)
    → keep_if (λ a. a.id == i) (update_allocation id set l)
      ≡ update_allocation id set (keep_if (λ a. a.id == i) l)
unfolding update_allocation
keep_if-update_allocation i id set [] h = refl
keep_if-update_allocation i id set (a ∷ l) h =
    ground (arith, h a, keep_if-update_allocation i id set l h)

-- The litres that the allocations and the transactions record as dispensed.
unfoldable pub total_dispensed : List Allocation → ℕ
total_dispensed [] = 0
total_dispensed (a ∷ l) = a.dispensed_liters + total_dispensed l

unfoldable pub total_logged : List DispenseTransaction → ℕ
total_logged [] = 0
total_logged (t ∷ l) = t.actual_liters + total_logged l

-- An update of no row changes no sum.
update_allocation_none :
    (id : ℕ) (set : Allocation → Allocation) (l : List Allocation)
    → keep_if (λ a. a.id == id) l ≡ []
    → update_allocation id set l ≡ l
unfolding update_allocation
update_allocation_none id set [] h = refl
update_allocation_none id set (a ∷ l) h = ground (arith, update_allocation_none id set l)

-- An update of the one row of an id moves the sum by what it adds to that row.
pub total_dispensed-update :
    (id n : ℕ) (set : Allocation → Allocation) (l : List Allocation) (a : Allocation)
    → keep_if (λ b. b.id == id) l ≡ a ∷ []
    → (set a).dispensed_liters ≡ a.dispensed_liters + n
    → total_dispensed (update_allocation id set l) ≡ total_dispensed l + n
unfolding update_allocation total_dispensed
total_dispensed-update id n set [] a h e = absurd (cc)
total_dispensed-update id n set (b ∷ l) a h e = elim (Bool-cases (b.id == id)) [
  | inl t ↦ ground (arith, update_allocation_none id set l)
  | inr f ↦ ground (arith, total_dispensed-update id n set l a)
]

module _ (P : DispenseCode → Type 0) where
  pub All-update_code :
      (id : ℕ) (set : DispenseCode → DispenseCode) (cs : List DispenseCode)
      → ((c : DispenseCode) → P c → P (set c))
      → All P cs
      → All P (update_code id set cs)
  unfolding update_code
  All-update_code id set [] keep h = tt
  All-update_code id set (c ∷ cs) keep h = elim (Bool-cases (c.id == id)) [
    | inl t ↦ rw t (keep c h.0, All-update_code id set cs keep h.1)
    | inr f ↦ rw f (h.0, All-update_code id set cs keep h.1)
  ]

module _ (P : Allocation → Type 0) where
  -- To update the one row of an id, the property of the new row is enough.
  pub All-update_allocation :
      (id : ℕ) (set : Allocation → Allocation) (l : List Allocation) (a : Allocation)
      → keep_if (λ b. b.id == id) l ≡ a ∷ []
      → P (set a)
      → All P l
      → All P (update_allocation id set l)
  unfolding update_allocation
  All-update_allocation id set [] a one p h = tt
  All-update_allocation id set (b ∷ l) a one p h = elim (Bool-cases (b.id == id)) [
    | inl t ↦
        let same : b ≡ a = ground arith in
        rw (t, same, update_allocation_none id set l (ground arith)) (p, h.1)
    | inr f ↦ rw f (h.0, All-update_allocation id set l a (ground arith) p h.1)
  ]
