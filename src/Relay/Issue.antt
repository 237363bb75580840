-- ===== src/Relay/Issue.antt =====
-- `issue_command` of platform/fmp/api/v1/iot_gateways.py: an administrator's command to a gateway, from
-- the request to the queue of the relay. The schema has accepted its type and payload before.
pub mod Revived
use fuel_monitoring.Prelude.{
  ℕ, Bool, true, false, ◌&&◌, ◌||◌, not, Option, none, some, List, [], ◌∷◌, Text, codes, any,
  keep_if, ◌==◌, if◌then◌else◌,
}
use fuel_monitoring.Auth.Login.{User, Response, answer, refused, multiple_results}
use fuel_monitoring.Auth.Sessions.{
  TenantScope, tenant_scope, is_platform, same_company, require_roles,
}
use fuel_monitoring.Relay.Queue.{Queues, enqueue_command}
use fuel_monitoring.Relay.Rows.{GatewayCommand, pending, frame_of}

-- The columns of a gateway that the request reads
pub record Target : Type 0 where
  pub id : ℕ
  pub gateway_mac : Text
  pub is_active : Bool
  pub company_id : Option ℕ

-- A tank: the gateway that carries it and the company of its site
pub record CarriedTank : Type 0 where
  pub gateway_id : Option ℕ
  pub company_id : ℕ

-- `carries_my_tank`
abbrev pub carries : TenantScope → (gateway_id : ℕ) → CarriedTank → Bool
carries s id t =
    same_company t.gateway_id (some id) && same_company (some t.company_id) s.company_id

-- `_visible_gateways_stmt`
unfoldable pub visible_gateways : TenantScope → List CarriedTank → List Target → List Target
visible_gateways s tanks gs =
    if is_platform s
    then gs
    else keep_if (λ g. same_company g.company_id s.company_id || any (carries s g.id) tanks) gs

abbrev one_or_404 : List Target → Response Target
one_or_404 [] = refused 404
one_or_404 (g ∷ []) = answer g
one_or_404 (g ∷ h ∷ gs) = multiple_results

-- `_get_gateway`
unfoldable pub get_gateway : TenantScope → List CarriedTank → ℕ → List Target → Response Target
get_gateway s tanks id gs = one_or_404 (keep_if (λ g. g.id == id) (visible_gateways s tanks gs))

-- The new row, with the default of `created_at`
abbrev pub new_command : (now command_id : ℕ) → (type payload : Text) → Target → GatewayCommand
new_command now command_id type payload g = record {
  command_id = command_id;
  gateway_mac = g.gateway_mac;
  command_type = type;
  payload_json = payload;
  status = pending;
  attempts = 0;
  max_attempts = 3;
  next_retry_at = none;
  sent_at = none;
  created_at = now;
  error_message = none;
  ack_status = none;
  ack_detail = none;
  ack_received_at = none;
}

pub record Commands : Type 0 where
  pub rows : List GatewayCommand
  pub queues : Queues

-- The commit, and then the push to Redis, which may raise: the row stays.
abbrev pub pushed :
    (now : ℕ) → (redis_up : Bool) → GatewayCommand → Commands → Response ℕ × Commands
pushed now redis_up c st =
    let stored = record st { rows = c ∷ st.rows } in
    if redis_up
    then (
      answer c.command_id,
      record stored { queues = enqueue_command (frame_of now c) st.queues },
    )
    else (refused 500, stored)

module _ (now command_id : ℕ) (redis_up : Bool) (type payload : Text) where
  abbrev pub issued_to : Response Target → Commands → Response ℕ × Commands
  issued_to (answer g) st =
      if g.is_active
      then pushed now redis_up (new_command now command_id type payload g) st
      else (refused 409, st)
  issued_to (refused n) st = (refused n, st)
  issued_to multiple_results st = (multiple_results, st)

  abbrev pub issued_by :
      List CarriedTank
      → List Target
      → (gateway_id : ℕ) → Response User
      → Commands
      → Response ℕ × Commands
  issued_by tanks gs id (answer u) st = issued_to (get_gateway (tenant_scope u) tanks id gs) st
  issued_by tanks gs id (refused n) st = (refused n, st)
  issued_by tanks gs id multiple_results st = (multiple_results, st)

  -- `issue_command`
  unfoldable pub issue_command :
      User → List CarriedTank → List Target → (gateway_id : ℕ) → Commands → Response ℕ × Commands
  issue_command caller tanks gs id st =
      issued_by tanks gs id (require_roles (codes "admin" ∷ []) caller) st
