-- ===== src/Notify/Dispatcher.antt =====
-- `NotificationDispatcher` of platform/fmp/services/notifications/dispatcher.py: the delivery of a code
-- over the gateways of a tenant, with its retries and its log. What a sender answers is an argument.
pub mod Delivery
use fuel_monitoring.Prelude.{
  ℕ, zero, suc, ◌+◌, ◌*◌, Bool, true, false, Option, none, some, List, [], ◌∷◌, ◌++◌, Text, codes,
  length, keep_if, ltb, if◌then◌else◌,
}
use fuel_monitoring.Notify.Rules.{NotificationGateway, is_usable, by_priority, serves_channel}

-- The defaults of platform/fmp/core/config.py.
abbrev pub notify_max_retries : ℕ
notify_max_retries = 3

abbrev pub notify_retry_backoff : ℕ
notify_retry_backoff = 5

abbrev pub default_notification_channel : Text
default_notification_channel = codes "sms"

pub record PendingDispatch : Type 0 where
  pub allocation_id : ℕ
  pub employee_id : Text
  pub employee_name : Text
  pub phone : Text
  pub code : Text
  pub liters : ℕ
  pub invoice_number : Option Text
  pub channel : Option Text
  pub company_id : Option ℕ

pub data DeliveryStatus : Type 0 where
  sent failed : DeliveryStatus

-- The row of `NotificationLog` that `_log` adds; `sent_at` is set for a delivery that was sent.
pub record DeliveryLog : Type 0 where
  pub allocation_id : ℕ
  pub company_id : Option ℕ
  pub gateway_id : ℕ
  pub channel : Text
  pub recipient : Text
  pub status : DeliveryStatus
  pub provider_message_id : Option Text
  pub error_message : Option Text
  pub retry_count : ℕ
  pub sent_at : Option ℕ

pub record DispatchResult : Type 0 where
  pub allocation_id : ℕ
  pub phone : Text
  pub channel : Text
  pub status : DeliveryStatus
  pub gateway_id : Option ℕ
  pub provider_message_id : Option Text
  pub error : Option Text

-- What a sender answers: the provider's id, or the text of the exception.
pub data Answer : Type 0 where
  delivered refused : Text → Answer

-- The log so far, oldest first, the time that was slept, and the last error.
pub record Progress : Type 0 where
  pub logs : List DeliveryLog
  pub slept : ℕ
  pub last_error : Option Text

abbrev pub channel_of : Option Text → Text
channel_of none = default_notification_channel
channel_of (some []) = default_notification_channel
channel_of (some (c ∷ s)) = c ∷ s

-- `_load_active_gateways`
unfoldable pub load_active_gateways : Option ℕ → List NotificationGateway → List NotificationGateway
load_active_gateways company gs = by_priority (keep_if (is_usable company) gs)

module _ (send : (n : ℕ) → NotificationGateway → Answer) (now : ℕ → ℕ)
    (item : PendingDispatch) where
  abbrev pub channel : Text
  channel = channel_of item.channel

  -- the row of a delivery, number `n` of this item
  abbrev pub log_row : ℕ → NotificationGateway → ℕ → Answer → DeliveryLog
  log_row attempt g n (delivered id) = record {
    allocation_id = item.allocation_id;
    company_id = item.company_id;
    gateway_id = g.id;
    channel = channel;
    recipient = item.phone;
    status = sent;
    provider_message_id = some id;
    error_message = none;
    retry_count = attempt;
    sent_at = some (now n);
  }
  log_row attempt g n (refused e) = record {
    allocation_id = item.allocation_id;
    company_id = item.company_id;
    gateway_id = g.id;
    channel = channel;
    recipient = item.phone;
    status = failed;
    provider_message_id = none;
    error_message = some e;
    retry_count = attempt;
    sent_at = none;
  }

  abbrev pub logged : ℕ → NotificationGateway → Answer → Progress → Progress
  logged attempt g a p = record p {
    logs = p.logs ++ log_row attempt g (length p.logs) a ∷ [];
    last_error = elim a [ delivered id ↦ p.last_error | refused e ↦ some e ];
  }

  -- An answer ends the round, or hands on to what remains of it.
  abbrev pub settled :
      ℕ
      → NotificationGateway
      → Answer
      → (Progress → Option (ℕ × Text) × Progress)
      → Progress
      → Option (ℕ × Text) × Progress
  settled attempt g (delivered id) rest p = (some (g.id, id), logged attempt g (delivered id) p)
  settled attempt g (refused e) rest p = rest (logged attempt g (refused e) p)

  -- `for gw in gateways`
  unfoldable pub try_gateways :
      ℕ → List NotificationGateway → Progress → Option (ℕ × Text) × Progress
  try_gateways attempt [] p = (none, p)
  try_gateways attempt (g ∷ gs) p =
      if serves_channel channel g.type
      then settled attempt g (send (length p.logs) g) (try_gateways attempt gs) p
      else try_gateways attempt gs p

  abbrev pub after_sleep : ℕ → Progress → Progress
  after_sleep attempt p =
      if ltb attempt notify_max_retries
      then record p { slept = p.slept + notify_retry_backoff * attempt }
      else p

  abbrev pub or_again :
      ℕ
      → (Progress → Option (ℕ × Text) × Progress)
      → Option (ℕ × Text) × Progress
      → Option (ℕ × Text) × Progress
  or_again attempt again (some x, p) = (some x, p)
  or_again attempt again (none, p) = again (after_sleep attempt p)

  -- `for attempt in range(1, max + 1)`, with the attempts that are left
  unfoldable pub try_attempts :
      (left attempt : ℕ) → List NotificationGateway → Progress → Option (ℕ × Text) × Progress
  try_attempts zero attempt gs p = (none, p)
  try_attempts (suc left) attempt gs p =
      or_again attempt (try_attempts left (attempt + 1) gs) (try_gateways attempt gs p)

  abbrev pub result_of : Option (ℕ × Text) × Progress → DispatchResult × Progress
  result_of (some (g, id), p) = (
    record {
      allocation_id = item.allocation_id;
      phone = item.phone;
      channel = channel;
      status = sent;
      gateway_id = some g;
      provider_message_id = some id;
      error = none;
    },
    p,
  )
  result_of (none, p) = (
    record {
      allocation_id = item.allocation_id;
      phone = item.phone;
      channel = channel;
      status = failed;
      gateway_id = none;
      provider_message_id = none;
      error = p.last_error;
    },
    p,
  )

  abbrev pub start : Option Text → Progress
  start e = record { logs = []; slept = 0; last_error = e }

  abbrev pub dispatch_over : List NotificationGateway → DispatchResult × Progress
  dispatch_over [] =
      result_of (none, start (some (codes "no active notification gateway configured")))
  dispatch_over (g ∷ gs) = result_of (try_attempts notify_max_retries 1 (g ∷ gs) (start none))

  -- `dispatch`
  unfoldable pub dispatch : List NotificationGateway → DispatchResult × Progress
  dispatch table = dispatch_over (load_active_gateways item.company_id table)
