-- ===== src/Notify/Tests.antt =====
-- An alarm of one tenant, and the theorems at it.
use fuel_monitoring.Prelude.{
  ℕ, zero, suc, ◌<◌, ◌++◌, length, ltb, if◌then◌else◌, arith, ◌≡◌, refl, true, Option, none, some,
  List, [], ◌∷◌, codes, All, Text,
}
use fuel_monitoring.Notify.Rules.{
  NotificationRule, NotificationGateway, Event, warning, critical, dispatch_event,
}
use fuel_monitoring.Notify.Scope.{IsScoped, dispatch_event-IsScoped}
use fuel_monitoring.Notify.Smpp.{
  SmppClient, build_bind, pdu, pack_u32, smpp_bind_transmitter_resp, connect, send_error,
  incomplete_read,
}
use fuel_monitoring.Notify.Smpp.Wire.{standard_pdu, command_of, connect_refuses, u32_mod}
use fuel_monitoring.Notify.Dispatcher.{
  PendingDispatch, Answer, delivered, refused, load_active_gateways, dispatch, channel,
}
use fuel_monitoring.Notify.Dispatcher.Delivery.{
  carriers, repeated, ids_of, IsAccounted, dispatch-IsAccounted,
}

abbrev event : Event
event = record {
  event_type = codes "alarm";
  level = critical;
  company_id = some 1;
  site_id = none;
  default_message = codes "alarm";
}

abbrev rules : List NotificationRule
rules =
    (record {
      id = 1;
      enabled = true;
      event_type = codes "alarm";
      min_level = warning;
      company_id = some 1;
      site_id = none;
      channel = codes "sms";
      targets = codes "100" ∷ codes "200" ∷ [];
      template = none;
    })
    ∷ []

abbrev gateways : List NotificationGateway
gateways =
    (record { id = 5; is_active = true; company_id = none; type = codes "smpp"; priority = 10 })
    ∷ []

abbrev plain : Text → Option Text
plain t = some t

-- The first delivery is answered, later ones fail.
abbrev first_only : ℕ → NotificationGateway → Text → Text → Option Text
first_only zero g to text = some (codes "id")
first_only (suc n) g to text = none

dispatch_event-IsScoped_example :
    All
      (IsScoped plain first_only event (λ g. g.priority ≡ 10) (λ r. r.id ≡ 1) 1)
      (dispatch_event plain first_only event rules gateways).1.logs
dispatch_event-IsScoped_example =
    dispatch_event-IsScoped plain first_only event (λ g. g.priority ≡ 10) (λ r. r.id ≡ 1) 1 rules
      gateways refl (refl, tt) (refl, tt)

abbrev client : SmppClient
client = record { system_id = codes "fmp"; password = codes "pw"; sender_id = codes "FUEL" }

bind_short : length (build_bind client) < u32_mod
unfolding build_bind pdu pack_u32
bind_short = omega arith

-- The server sends nothing after its answer.
connect_refuses_example :
    let answer = standard_pdu smpp_bind_transmitter_resp 0 1 (codes "S" ++ 0 ∷ []) in
    let (written, outcome) = connect client (answer ++ []) in
    (outcome ≡ (if ltb 0 4 then incomplete_read else send_error 1))
    × (command_of written ≡ some (length (build_bind client)))
connect_refuses_example =
    connect_refuses client 1 (codes "S" ++ 0 ∷ []) [] (omega arith) (omega arith) bind_short

abbrev item : PendingDispatch
item = record {
  allocation_id = 1;
  employee_id = codes "E1";
  employee_name = codes "Amal";
  phone = codes "100";
  code = codes "123456";
  liters = 5000;
  invoice_number = none;
  channel = none;
  company_id = some 1;
}

-- The first delivery is refused, the second is not.
abbrev second_only : ℕ → NotificationGateway → Answer
second_only zero g = refused (codes "busy")
second_only (suc n) g = delivered (codes "id")

dispatch-IsAccounted_example :
    IsAccounted second_only
      (λ n. n)
      item
      (repeated 3 (
        ids_of
          (carriers (channel second_only (λ n. n) item) (load_active_gateways (some 1) gateways))))
      (dispatch second_only (λ n. n) item gateways)
dispatch-IsAccounted_example = dispatch-IsAccounted second_only (λ n. n) item gateways
