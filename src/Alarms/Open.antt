-- ===== src/Alarms/Open.antt =====
-- Which alarm keys are open after a reading, and how often a type fires in it.
use fuel_monitoring.Prelude.{
  ℕ, ◌+◌, ◌≡◌, refl, ◌≢◌, inl, inr, ◌∙◌, Bool, true, false, not, ◌&&◌, ◌||◌, Option, none, some,
  List, [], ◌∷◌, any, arith, if◌then◌else◌, Bool-cases, Option-cases,
}
use fuel_monitoring.Redis.{Redis, RedisLaws}
use fuel_monitoring.Alarms.Rules.{
  AlarmType, AlarmCandidate, Tank, type_eq, type_eq_sound, type_eq_refl,
}
use fuel_monitoring.Alarms.Table.{Alarm}
use fuel_monitoring.Alarms.Frame.{
  OpenKey, Check, is_open, one, raise_alarms, clears, check_alarm, resolve_cleared,
}

-- How many of the candidates have a type, and whether one has.
unfoldable pub count_type : AlarmType → List AlarmCandidate → ℕ
count_type type [] = 0
count_type type (c ∷ cs) = (if type_eq c.type type then 1 else 0) + count_type type cs

abbrev pub has_type : AlarmType → List AlarmCandidate → Bool
has_type type cs = any (λ (c : AlarmCandidate). type_eq c.type type) cs

abbrev pub is_some {ℓ} : {A : Type ℓ} → Option A → Bool
is_some none = false
is_some (some a) = true

-- Whether a check of this type resolves.
abbrev pub closes : Tank → List AlarmCandidate → AlarmType → List Check → Bool
closes t cs type checks =
    any (λ (c : Check). type_eq c.type type && is_some (clears t cs c c.type)) checks

module _ {V : Type 0} (r : Redis OpenKey V) (laws : RedisLaws r) (t : Tank) (type : AlarmType) where
  abbrev opened : r.Store → Bool
  opened s = is_open r t type s

  other_key :
      (u : AlarmType)
      → type_eq u type ≡ false
      → (let k : OpenKey = (t.id, u) in let j : OpenKey = (t.id, type) in k ≢ j)
  other_key u h e = ground (arith, type_eq_refl type)

  is_open-sadd :
      (u : AlarmType) (s : r.Store) → opened (r.sadd (t.id, u) one s) ≡ (type_eq u type || opened s)
  is_open-sadd u s = elim (Bool-cases (type_eq u type)) [
    | inl e ↦ rw (e, type_eq_sound u type e) (laws.sismember-sadd_self (t.id, type) one s)
    | inr n ↦ rw n (laws.sismember-sadd_ne (t.id, u) (t.id, type) one one s (inl (other_key u n)))
  ]

  is_open-srem :
      (u : AlarmType) (s : r.Store)
      → opened (r.srem (t.id, u) one s) ≡ (not (type_eq u type) && opened s)
  is_open-srem u s = elim (Bool-cases (type_eq u type)) [
    | inl e ↦ rw (e, type_eq_sound u type e) (laws.sismember-srem_self (t.id, type) one s)
    | inr n ↦ rw n (laws.sismember-srem_ne (t.id, u) (t.id, type) one one s (inl (other_key u n)))
  ]

  raised_store :
      (u : AlarmType) (s : r.Store)
      → opened (if is_open r t u s then s else r.sadd (t.id, u) one s)
        ≡ (type_eq u type || opened s)
  raised_store u s = elim (Bool-cases (is_open r t u s)) [
    | inr n ↦ rw n (is_open-sadd u s)
    | inl y ↦ rw y (elim (Bool-cases (type_eq u type)) [
      | inl e ↦ let same = type_eq_sound u type e in ground (arith, same, y)
      | inr n ↦ rw n refl
    ])
  ]

  -- After the raise loop a type is open when it was, or when it is among the candidates.
  pub raise_alarms-is_open :
      (cs : List AlarmCandidate) (s : r.Store)
      → opened (raise_alarms r t cs s).1 ≡ (opened s || has_type type cs)
  unfolding raise_alarms
  raise_alarms-is_open [] s = ground arith
  raise_alarms-is_open (c ∷ cs) s =
      let seen = is_open r t c.type s in
      let s' = if seen then s else r.sadd (t.id, c.type) one s in
      ground (arith, raise_alarms-is_open cs s', raised_store c.type s)

  -- A type fires at most once in a reading, and only when it was not open.
  pub raise_alarms-count_type :
      (cs : List AlarmCandidate) (s : r.Store)
      → count_type type (raise_alarms r t cs s).0
        ≡ (if not (opened s) && has_type type cs then 1 else 0)
  unfolding raise_alarms count_type
  raise_alarms-count_type [] s = ground arith
  raise_alarms-count_type (c ∷ cs) s =
      let seen = is_open r t c.type s in
      let s' = if seen then s else r.sadd (t.id, c.type) one s in
      elim (Bool-cases seen) [
        | inl y ↦ elim (Bool-cases (type_eq c.type type)) [
          | inl e ↦ ground (arith, raise_alarms-count_type cs s', raised_store c.type s)
          | inr n ↦ ground (arith, raise_alarms-count_type cs s', raised_store c.type s)
        ]
        | inr y ↦ elim (Bool-cases (type_eq c.type type)) [
          | inl e ↦
              let same = type_eq_sound c.type type e in
              ground (arith, raise_alarms-count_type cs s', raised_store c.type s, same)
          | inr n ↦ ground (arith, raise_alarms-count_type cs s', raised_store c.type s)
        ]
      ]

  check_alarm-is_open :
      (now : ℕ) (cs : List AlarmCandidate) (c : Check) (s : r.Store) (rows : List Alarm)
      → opened (check_alarm r t now cs c s rows).1.0
        ≡ (opened s && not (type_eq c.type type && is_some (clears t cs c c.type)))
  unfolding check_alarm
  check_alarm-is_open now cs c s rows = elim (Bool-cases (is_open r t c.type s)) [
    | inl y ↦ elim (Option-cases (clears t cs c c.type)) [
      | inl q ↦ rw (y, q) (ground arith)
      | inr (w, q) ↦ rw (y, q) (is_open-srem c.type s ∙ ground arith)
    ]
    | inr y ↦ elim (Bool-cases (type_eq c.type type)) [
      | inl e ↦ rw y (ground (arith, type_eq_sound c.type type e))
      | inr n ↦ rw (y, n) (ground arith)
    ]
  ]

  -- After `_resolve_cleared` a type is open when it was, and when no check of it resolves.
  pub resolve_cleared-is_open :
      (now : ℕ) (cs : List AlarmCandidate) (checks : List Check) (s : r.Store) (rows : List Alarm)
      → opened (resolve_cleared r t now cs checks s rows).1.0
        ≡ (opened s && not (closes t cs type checks))
  unfolding resolve_cleared
  resolve_cleared-is_open now cs [] s rows = ground arith
  resolve_cleared-is_open now cs (c ∷ rest) s rows =
      let (done, (s1, rows1)) = check_alarm r t now cs c s rows in
      ground
        (arith, resolve_cleared-is_open now cs rest s1 rows1, check_alarm-is_open now cs c s rows)
