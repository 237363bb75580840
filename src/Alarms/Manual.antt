-- ===== src/Alarms/Manual.antt =====
-- What a user does to an alarm: `ack_alarm` and `resolve_alarm` of platform/fmp/api/v1/alarms.py. The
-- audit rows are left out.
pub mod Silence
use fuel_monitoring.Prelude.{
  ℕ, Bool, true, false, not, ◌&&◌, ◌||◌, Option, none, some, List, [], ◌∷◌, Text, codes, text_eq,
  any, keep_if, ◌==◌, if◌then◌else◌,
}
use fuel_monitoring.Auth.Login.{User, Response, answer, refused, multiple_results}
use fuel_monitoring.Auth.Sessions.{require_roles, same_company}
use fuel_monitoring.Alarms.Table.{
  Alarm, AlarmState, active, acknowledged, escalated, resolved, Resolution, by_hand, by_user,
  resolve, update_alarm,
}

-- A tank with the company of its site, which no tank is without.
pub record Placement : Type 0 where
  pub tank_id : ℕ
  pub is_deleted : Bool
  pub company_id : ℕ

-- The filter of `_scoped_stmt` on a tank
abbrev pub is_visible : User → Placement → Bool
is_visible caller p =
    not p.is_deleted
    && (text_eq caller.role (codes "admin") || same_company (some p.company_id) caller.company_id)

-- The join of an alarm with its tank
abbrev pub in_scope : User → List Placement → Alarm → Bool
in_scope caller tanks a = any (λ p. p.tank_id == a.tank_id && is_visible caller p) tanks

abbrev first_or_404 : List Alarm → Response Alarm
first_or_404 [] = refused 404
first_or_404 (a ∷ rows) = answer a

-- `_load_scoped`
unfoldable pub load_scoped : User → List Placement → (id : ℕ) → List Alarm → Response Alarm
load_scoped caller tanks id rows =
    first_or_404 (keep_if (λ a. a.id == id && in_scope caller tanks a) rows)

abbrev acknowledged_state : AlarmState → AlarmState
acknowledged_state active = acknowledged
acknowledged_state s = s

unfoldable pub acknowledged_row : ℕ → User → Alarm → Alarm
acknowledged_row now caller a = record a {
  acknowledged = true;
  acknowledged_by = some caller.id;
  acknowledged_at = some now;
  state = acknowledged_state a.state;
}

abbrev reason : User → Option Text → Resolution
reason caller none = by_user caller.username
reason caller (some []) = by_user caller.username
reason caller (some (c ∷ m)) = by_hand (c ∷ m)

unfoldable pub resolved_row : ℕ → User → Option Text → Alarm → Alarm
resolved_row now caller message a = record (resolve now (reason caller message) a) {
  acknowledged = true;
}

abbrev privileged : List Text
privileged = codes "admin" ∷ codes "company_admin" ∷ []

-- The commit of a change to the row that was loaded, and the answer with that row
abbrev changed : (Alarm → Alarm) → List Alarm → Response Alarm → Response Alarm × List Alarm
changed set rows (answer a) = (answer (set a), update_alarm a.id set rows)
changed set rows (refused n) = (refused n, rows)
changed set rows multiple_results = (multiple_results, rows)

abbrev loaded_by :
    List Placement
    → ℕ
    → List Alarm
    → (User → Alarm → Alarm)
    → Response User
    → Response Alarm × List Alarm
loaded_by tanks id rows set (answer u) = changed (set u) rows (load_scoped u tanks id rows)
loaded_by tanks id rows set (refused n) = (refused n, rows)
loaded_by tanks id rows set multiple_results = (multiple_results, rows)

module _ (tanks : List Placement) (now id : ℕ) (caller : User) (rows : List Alarm) where
  -- `ack_alarm`
  unfoldable pub ack_alarm : Response Alarm × List Alarm
  ack_alarm = loaded_by tanks id rows (acknowledged_row now) (require_roles privileged caller)

  -- `resolve_alarm`
  unfoldable pub resolve_alarm : Option Text → Response Alarm × List Alarm
  resolve_alarm message =
      loaded_by tanks id rows (λ u. resolved_row now u message) (require_roles privileged caller)
