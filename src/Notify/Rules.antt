-- ===== src/Notify/Rules.antt =====
-- The rule engine: `render_template`, `load_matching_rules`, `_gateways_for_channel`, `dispatch_event`.
use fuel_monitoring.Prelude.{
  ℕ, ◌+◌, Bool, true, ◌&&◌, ◌||◌, Option, none, some, List, [], ◌∷◌, Text, codes, text_eq, length,
  keep_if, leb, ◌==◌, if◌then◌else◌,
}

-- A level after `(level or "").upper()`; `unknown` is every text without a rank.
pub data Level : Type 0 where
  warning critical unknown : Level

-- `LEVEL_RANK.get(level, default)`
abbrev pub rank : Level → (default_ : ℕ) → ℕ
rank warning d = 1
rank critical d = 2
rank unknown d = d

pub record NotificationRule : Type 0 where
  pub id : ℕ
  pub enabled : Bool
  pub event_type : Text
  pub min_level : Level
  pub company_id : Option ℕ
  pub site_id : Option ℕ
  pub channel : Text
  pub targets : List Text
  pub template : Option Text

pub record NotificationGateway : Type 0 where
  pub id : ℕ
  pub is_active : Bool
  pub company_id : Option ℕ
  pub type : Text
  pub priority : ℕ

pub record NotificationLog : Type 0 where
  pub gateway_id : ℕ
  pub channel : Text
  pub recipient : Text
  -- the provider's id of a delivery that was sent, none for one that failed
  pub provider_message_id : Option Text
  pub company_id : Option ℕ

pub record Event : Type 0 where
  pub event_type : Text
  pub level : Level
  pub company_id : Option ℕ
  pub site_id : Option ℕ
  pub default_message : Text

-- `or_(X.company_id == company_id, X.company_id.is_(None))`, and no condition for no company
abbrev pub is_in_scope : Option ℕ → Option ℕ → Bool
is_in_scope none owner = true
is_in_scope (some c) none = true
is_in_scope (some c) (some d) = d == c

-- The site test: only two sites that are both given can differ.
abbrev pub is_at_site : Option ℕ → Option ℕ → Bool
is_at_site (some a) (some b) = a == b
is_at_site _ _ = true

unfoldable pub matches : Event → NotificationRule → Bool
matches e r =
    (r.enabled && text_eq r.event_type e.event_type && is_in_scope e.company_id r.company_id)
    && (leb (rank r.min_level 99) (rank e.level 0) && is_at_site r.site_id e.site_id)

-- `load_matching_rules`
abbrev pub load_matching_rules : Event → List NotificationRule → List NotificationRule
load_matching_rules e rules = keep_if (matches e) rules

-- `.order_by(priority.asc())`
unfoldable pub insert_gateway :
    NotificationGateway → List NotificationGateway → List NotificationGateway
insert_gateway g [] = g ∷ []
insert_gateway g (h ∷ hs) =
    let rest = insert_gateway g hs in if leb g.priority h.priority then g ∷ h ∷ hs else h ∷ rest

unfoldable pub by_priority : List NotificationGateway → List NotificationGateway
by_priority [] = []
by_priority (g ∷ gs) = insert_gateway g (by_priority gs)

-- The gateways that a query selects: active, and of the tenant or of the platform.
abbrev pub is_usable : Option ℕ → NotificationGateway → Bool
is_usable company g = g.is_active && is_in_scope company g.company_id

abbrev pub is_sms : Text → Bool
is_sms channel = text_eq channel (codes "sms") || text_eq channel (codes "smpp")

-- `type in CHANNEL_GATEWAY_TYPES.get(channel, {channel})`
unfoldable pub serves_channel : (channel type : Text) → Bool
serves_channel channel type = if is_sms channel then is_sms type else text_eq type channel

-- `_gateways_for_channel`
unfoldable pub gateways_for_channel :
    Option ℕ → Text → List NotificationGateway → List NotificationGateway
gateways_for_channel company channel gs =
    keep_if (λ (g : NotificationGateway). serves_channel channel g.type)
      (by_priority (keep_if (is_usable company) gs))

-- `render_template`; `format` is `str.format` with the context, none when it raises.
abbrev rendered : Option Text → Text → Text
rendered none fallback = fallback
rendered (some text) fallback = text

unfoldable pub render_template : (Text → Option Text) → Option Text → Text → Text
render_template format none fallback = fallback
render_template format (some []) fallback = fallback
render_template format (some (c ∷ t)) fallback = rendered (format (c ∷ t)) fallback

-- The counts of `EventDispatchSummary` and the rows that `log_delivery` adds, newest first.
pub record Dispatch : Type 0 where
  pub sent : ℕ
  pub failed : ℕ
  pub logs : List NotificationLog

module _ (format : Text → Option Text)
    (send : (n : ℕ) → NotificationGateway → (recipient text : Text) → Option Text) (e : Event) where
  -- One delivery; `send n` is what the provider answers to the delivery number `n`, none when it raises.
  abbrev pub log_of : NotificationGateway → Text → Text → Option Text → NotificationLog
  log_of g channel target provider = record {
    gateway_id = g.id;
    channel = channel;
    recipient = target;
    provider_message_id = provider;
    company_id = e.company_id;
  }

  abbrev pub counted : NotificationGateway → Text → Text → Option Text → Dispatch → Dispatch
  counted g channel target none d = record d {
    failed = d.failed + 1;
    logs = log_of g channel target none ∷ d.logs;
  }
  counted g channel target (some id) d = record d {
    sent = d.sent + 1;
    logs = log_of g channel target (some id) ∷ d.logs;
  }

  unfoldable pub deliver : NotificationGateway → NotificationRule → List Text → Dispatch → Dispatch
  deliver g r [] d = d
  deliver g r (target ∷ targets) d =
      let text = render_template format r.template e.default_message in
      deliver g r targets (counted g r.channel target (send (length d.logs) g target text) d)

  -- A rule whose channel has no gateway fails for all its targets, without a log row.
  abbrev pub deliver_rule : NotificationRule → List NotificationGateway → Dispatch → Dispatch
  deliver_rule r [] d = record d { failed = d.failed + length r.targets }
  deliver_rule r (g ∷ gs) d = deliver g r r.targets d

  unfoldable pub deliver_rules :
      List NotificationGateway → List NotificationRule → Dispatch → Dispatch
  deliver_rules gateways [] d = d
  deliver_rules gateways (r ∷ rs) d =
      deliver_rules gateways rs
        (deliver_rule r (gateways_for_channel e.company_id r.channel gateways) d)

  -- `dispatch_event`: the number of rules, and the deliveries.
  unfoldable pub dispatch_event : List NotificationRule → List NotificationGateway → ℕ × Dispatch
  dispatch_event rules gateways =
      let matched = load_matching_rules e rules in
      (length matched, deliver_rules gateways matched (record { sent = 0; failed = 0; logs = [] }))
