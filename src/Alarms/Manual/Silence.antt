-- ===== src/Alarms/Manual/Silence.antt =====
-- An alarm that a user resolves is not raised again while its cause lasts.
use fuel_monitoring.Prelude.{
  ap, ◌∙◌, ℕ, ◌≡◌, refl, inl, inr, Bool, true, false, ◌&&◌, ◌||◌, Option, some, List, [], ◌∷◌, Text,
  codes, text_eq, not, keep_if, All, arith, ◌==◌, if◌then◌else◌, Bool-cases,
}
use fuel_monitoring.Redis.{Redis, RedisLaws}
use fuel_monitoring.Auth.Login.{User, answer, refused}
use fuel_monitoring.Auth.Sessions.{require_roles}
use fuel_monitoring.Alarms.Rules.{threshold, RuleType, Tank, threshold_of}
use fuel_monitoring.Alarms.Table.{Alarm, resolved, update_alarm}
use fuel_monitoring.Alarms.Frame.{OpenKey, AlarmWorld}
use fuel_monitoring.Alarms.Switch.{measured}
use fuel_monitoring.Alarms.Runs.{Arrival, IsBeyond, fired_in, opened, open_silent}
use fuel_monitoring.Alarms.Manual.{Placement, in_scope, load_scoped, resolved_row, resolve_alarm}

abbrev pub is_privileged : User → Bool
is_privileged u =
    text_eq u.role (codes "admin") || (text_eq u.role (codes "company_admin") || false)

keep_if-both :
    {A : Type 0} (p q : A → Bool) (l : List A)
    → keep_if (λ x. p x && q x) l ≡ keep_if q (keep_if p l)
keep_if-both p q [] = refl
keep_if-both p q (x ∷ l) = ground (arith, keep_if-both p q l)

module _ (tanks : List Placement) (now id : ℕ) (caller : User) (rows : List Alarm) (a : Alarm)
    (one : keep_if (λ (x : Alarm). x.id == id) rows ≡ a ∷ []) where
  load_scoped_one :
      load_scoped caller tanks id rows ≡ (if in_scope caller tanks a then answer a else refused 404)
  unfolding load_scoped
  load_scoped_one = elim (Bool-cases (in_scope caller tanks a)) [
    | inl y ↦
        rw (keep_if-both (λ (x : Alarm). x.id == id) (in_scope caller tanks) rows, one, y) refl
    | inr n ↦
        rw (keep_if-both (λ (x : Alarm). x.id == id) (in_scope caller tanks) rows, one, n) refl
  ]

  -- How a resolution by hand ends: for a user who may, on a row in the user's scope, with the row set;
  -- otherwise with a refusal and the rows as they were.
  pub resolve_alarm_lem :
      (message : Option Text)
      → resolve_alarm tanks now id caller rows message ≡ (
          if not (is_privileged caller)
          then (refused 403, rows)
          else if not (in_scope caller tanks a)
          then (refused 404, rows)
          else (
            answer (resolved_row now caller message a),
            update_alarm a.id (resolved_row now caller message) rows,
          ))
  unfolding resolve_alarm require_roles
  resolve_alarm_lem message = elim (Bool-cases (is_privileged caller)) [
    | inr n ↦ rw n refl
    | inl y ↦
        rw (y, load_scoped_one)
          (elim (Bool-cases (in_scope caller tanks a)) [ inl i ↦ rw i refl | inr n ↦ rw n refl ])
  ]

  module _ {V : Type 0} (r : Redis OpenKey V) (t : Tank) (rule : RuleType) (laws : RedisLaws r)
      (limit : ℕ) where
    -- The alarm of a rule on a tank, in the scope of a privileged user, that the user resolves by hand is
    -- answered as resolved. When the key of the rule was open, the rule then fires no alarm as long as
    -- its value stays beyond the threshold by the hysteresis band, which is empty for low levels.
    pub resolve_alarm_silences :
        (message : Option Text) (arrivals : List Arrival) (w : AlarmWorld r.Store)
        → a.tank_id ≡ t.id
        → a.type ≡ threshold rule
        → threshold_of t rule ≡ some limit
        → is_privileged caller ≡ true
        → in_scope caller tanks a ≡ true
        → w.alarms ≡ rows
        → opened r t rule w ≡ true
        → All (λ (x : Arrival). IsBeyond rule limit (measured rule x.reading)) arrivals
        → let (response, rows') = resolve_alarm tanks now id caller w.alarms message in
          (b : Alarm) × (response ≡ answer b)
          × (b.id ≡ a.id)
          × (b.tank_id ≡ t.id)
          × (b.type ≡ threshold rule)
          × (b.state ≡ resolved)
          × ((fired_in r t rule arrivals (record w { alarms = rows' })).0 ≡ 0)
    resolve_alarm_silences message arrivals w on_tank of_rule set may seen same on beyond =
        let rows' = (resolve_alarm tanks now id caller w.alarms message).1 in
        let answered =
          ap (λ (k : List Alarm). (resolve_alarm tanks now id caller k message).0) same
          ∙ (rw (resolve_alarm_lem message, may, seen) refl) in
        let quiet =
          open_silent r t rule laws limit set arrivals (record w { alarms = rows' }) beyond on in
        (
          resolved_row now caller message a,
          answered,
          unfold resolved_row in refl,
          unfold resolved_row in on_tank,
          unfold resolved_row in of_rule,
          unfold resolved_row in refl,
          quiet.0,
        )
