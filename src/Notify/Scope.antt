-- ===== src/Notify/Scope.antt =====
-- Every target is accounted for, and a tenant's event stays with the tenant and the platform.
use fuel_monitoring.Prelude.{
  ℕ, ◌+◌, ◌≡◌, refl, ◌∙◌, Bool, true, Option, none, some, List, [], ◌∷◌, Text, length, All, keep_if,
  leb, arith, Bool-cases, inl, inr, ap, ◌⊎◌, text_eq→eq,
}
use fuel_monitoring.Notify.Rules.{
  NotificationRule, NotificationGateway, NotificationLog, Event, Dispatch, matches,
  load_matching_rules, insert_gateway, by_priority, is_usable, serves_channel, gateways_for_channel,
  is_in_scope, counted, render_template, deliver, deliver_rule, deliver_rules, dispatch_event,
}

-- The targets of all rules.
unfoldable pub count_targets : List NotificationRule → ℕ
count_targets [] = 0
count_targets (r ∷ rs) = length r.targets + count_targets rs

module _ (format : Text → Option Text)
    (send : (n : ℕ) → NotificationGateway → (recipient text : Text) → Option Text) (e : Event) where
  abbrev total : Dispatch → ℕ
  total d = d.sent + d.failed

  counted-total :
      (g : NotificationGateway) (channel target : Text) (o : Option Text) (d : Dispatch)
      → total (counted format send e g channel target o d) ≡ total d + 1
  counted-total g channel target none d = omega arith
  counted-total g channel target (some id) d = omega arith

  deliver-total :
      (g : NotificationGateway) (r : NotificationRule) (targets : List Text) (d : Dispatch)
      → total (deliver format send e g r targets d) ≡ total d + length targets
  unfolding deliver
  deliver-total g r [] d = omega arith
  deliver-total g r (target ∷ targets) d =
      let text = render_template format r.template e.default_message in
      let answer = send (length d.logs) g target text in
      omega (
        arith,
        deliver-total g r targets (counted format send e g r.channel target answer d),
        counted-total g r.channel target answer d,
      )

  deliver_rule-total :
      (r : NotificationRule) (gs : List NotificationGateway) (d : Dispatch)
      → total (deliver_rule format send e r gs d) ≡ total d + length r.targets
  deliver_rule-total r [] d = omega arith
  deliver_rule-total r (g ∷ gs) d = deliver-total g r r.targets d

  deliver_rules-total :
      (gateways : List NotificationGateway) (rs : List NotificationRule) (d : Dispatch)
      → total (deliver_rules format send e gateways rs d) ≡ total d + count_targets rs
  unfolding deliver_rules count_targets
  deliver_rules-total gateways [] d = omega arith
  deliver_rules-total gateways (r ∷ rs) d =
      let found = gateways_for_channel e.company_id r.channel gateways in
      omega (
        arith,
        deliver_rules-total gateways rs (deliver_rule format send e r found d),
        deliver_rule-total r found d,
      )

  -- Every target of every matching rule is counted once, as sent or as failed.
  pub dispatch_event-total :
      (rules : List NotificationRule) (gateways : List NotificationGateway)
      → let (evaluated, d) = dispatch_event format send e rules gateways in
        d.sent + d.failed ≡ count_targets (load_matching_rules e rules)
  unfolding dispatch_event
  dispatch_event-total rules gateways =
      deliver_rules-total gateways (load_matching_rules e rules)
        (record { sent = 0; failed = 0; logs = [] })
      ∙ omega arith

module _ (P : NotificationGateway → Type 0) where
  All-insert_gateway :
      (g : NotificationGateway) (gs : List NotificationGateway)
      → P g
      → All P gs
      → All P (insert_gateway g gs)
  unfolding insert_gateway
  All-insert_gateway g [] p h = (p, tt)
  All-insert_gateway g (k ∷ gs) p h = elim (Bool-cases (leb g.priority k.priority)) [
    | inl y ↦ rw y (p, h)
    | inr n ↦ rw n (h.0, All-insert_gateway g gs p h.1)
  ]

  All-by_priority : (gs : List NotificationGateway) → All P gs → All P (by_priority gs)
  unfolding by_priority
  All-by_priority [] h = tt
  All-by_priority (g ∷ gs) h = All-insert_gateway g (by_priority gs) h.0 (All-by_priority gs h.1)

-- What passes a filter has what the list had, and the test.
All-keep_if :
    {A : Type 0} (P : A → Type 0) (p : A → Bool) (l : List A)
    → All P l
    → All (λ x. P x × (p x ≡ true)) (keep_if p l)
All-keep_if P p [] h = tt
All-keep_if P p (x ∷ l) h = elim (Bool-cases (p x)) [
  | inl y ↦ rw y ((h.0, y), All-keep_if P p l h.1)
  | inr n ↦ rw n (All-keep_if P p l h.1)
]

-- A gateway that may carry a channel for a company.
abbrev IsCarrier : (NotificationGateway → Type 0) → Option ℕ → Text → NotificationGateway → Type 0
IsCarrier P company channel g =
    (P g × (is_usable company g ≡ true)) × (serves_channel channel g.type ≡ true)

gateways_for_channel-IsCarrier :
    (P : NotificationGateway → Type 0) (company : Option ℕ) (channel : Text)
    (gs : List NotificationGateway)
    → All P gs
    → All (IsCarrier P company channel) (gateways_for_channel company channel gs)
unfolding gateways_for_channel
gateways_for_channel-IsCarrier P company channel gs h =
    All-keep_if (λ (g : NotificationGateway). P g × (is_usable company g ≡ true))
      (λ (g : NotificationGateway). serves_channel channel g.type)
      (by_priority (keep_if (is_usable company) gs))
      (All-by_priority (λ (g : NotificationGateway). P g × (is_usable company g ≡ true))
        (keep_if (is_usable company) gs) (All-keep_if P (is_usable company) gs h))

-- `P` and `R` are any properties of the gateways and of the rules of the tables.
module _ (format : Text → Option Text)
    (send : (n : ℕ) → NotificationGateway → (recipient text : Text) → Option Text) (e : Event)
    (P : NotificationGateway → Type 0) (R : NotificationRule → Type 0) where
  -- A row for a rule that matches and a gateway that may carry it, both of the tables.
  abbrev IsCarried : NotificationLog → Type 0
  IsCarried l =
      (l.company_id ≡ e.company_id)
      × ((g : NotificationGateway) × (g.id ≡ l.gateway_id) × IsCarrier P e.company_id l.channel g)
      × ((r : NotificationRule) × (r.channel ≡ l.channel) × R r × (matches e r ≡ true))

  deliver-IsCarried :
      (g : NotificationGateway) (r : NotificationRule) (targets : List Text) (d : Dispatch)
      → IsCarrier P e.company_id r.channel g
      → R r
      → matches e r ≡ true
      → All IsCarried d.logs
      → All IsCarried (deliver format send e g r targets d).logs
  unfolding deliver
  deliver-IsCarried g r [] d carrier rule match h = h
  deliver-IsCarried g r (target ∷ targets) d carrier rule match h =
      let text = render_template format r.template e.default_message in
      let answer = send (length d.logs) g target text in
      deliver-IsCarried g r targets (counted format send e g r.channel target answer d) carrier rule
        match (counted_scoped answer)
    where
      counted_scoped :
          (o : Option Text) → All IsCarried (counted format send e g r.channel target o d).logs
      counted_scoped none = ((refl, (g, refl, carrier), (r, refl, rule, match)), h)
      counted_scoped (some id) = ((refl, (g, refl, carrier), (r, refl, rule, match)), h)

  deliver_rule-IsCarried :
      (r : NotificationRule) (gs : List NotificationGateway) (d : Dispatch)
      → All (IsCarrier P e.company_id r.channel) gs
      → R r × (matches e r ≡ true)
      → All IsCarried d.logs
      → All IsCarried (deliver_rule format send e r gs d).logs
  deliver_rule-IsCarried r [] d carriers rule h = h
  deliver_rule-IsCarried r (g ∷ gs) d carriers rule h =
      deliver-IsCarried g r r.targets d carriers.0 rule.0 rule.1 h

  deliver_rules-IsCarried :
      (gateways : List NotificationGateway) (rs : List NotificationRule) (d : Dispatch)
      → All P gateways
      → All (λ r. R r × (matches e r ≡ true)) rs
      → All IsCarried d.logs
      → All IsCarried (deliver_rules format send e gateways rs d).logs
  unfolding deliver_rules
  deliver_rules-IsCarried gateways [] d gs rules h = h
  deliver_rules-IsCarried gateways (r ∷ rs) d gs rules h =
      let found = gateways_for_channel e.company_id r.channel gateways in
      deliver_rules-IsCarried gateways rs (deliver_rule format send e r found d) gs rules.1 (
        deliver_rule-IsCarried r found d
          (gateways_for_channel-IsCarrier P e.company_id r.channel gateways gs) rules.0 h)

  -- Every delivery row carries the company of its event, names a usable gateway of the table that serves
  -- the channel, and stands for a rule of the table that matches the event.
  dispatch_event-IsCarried :
      (rules : List NotificationRule) (gateways : List NotificationGateway)
      → All R rules
      → All P gateways
      → All IsCarried (dispatch_event format send e rules gateways).1.logs
  unfolding dispatch_event
  dispatch_event-IsCarried rules gateways rs gs =
      deliver_rules-IsCarried gateways (load_matching_rules e rules)
        (record { sent = 0; failed = 0; logs = [] }) gs (All-keep_if R (matches e) rules rs) tt

-- What belongs to a tenant or to the platform
abbrev pub IsOwned : ℕ → Option ℕ → Type 0
IsOwned c owner = (owner ≡ none) ⊎ (owner ≡ some c)

in_scope-IsOwned : (c : ℕ) (owner : Option ℕ) → is_in_scope (some c) owner ≡ true → IsOwned c owner
in_scope-IsOwned c none h = inl refl
in_scope-IsOwned c (some d) h = let same : d ≡ c = ground arith in inr (ap some same)

All-weaken :
    {A : Type 0} (P Q : A → Type 0) → ((x : A) → P x → Q x) → (l : List A) → All P l → All Q l
All-weaken P Q implies [] h = tt
All-weaken P Q implies (x ∷ l) h = (implies x h.0, All-weaken P Q implies l h.1)

module _ (format : Text → Option Text)
    (send : (n : ℕ) → NotificationGateway → (recipient text : Text) → Option Text) (e : Event)
    (P : NotificationGateway → Type 0) (R : NotificationRule → Type 0) (c : ℕ) where
  -- A row of the tenant, over an active gateway and for an enabled rule of the event's type, each of the
  -- tenant or of the platform.
  abbrev pub IsScoped : NotificationLog → Type 0
  IsScoped l =
      (l.company_id ≡ some c)
      × ((g : NotificationGateway) × (g.id ≡ l.gateway_id)
          × P g
          × (g.is_active ≡ true)
          × IsOwned c g.company_id)
      × ((r : NotificationRule) × (r.channel ≡ l.channel)
          × R r
          × (r.enabled ≡ true)
          × (r.event_type ≡ e.event_type)
          × IsOwned c r.company_id)

  carried-IsScoped :
      e.company_id ≡ some c → (l : NotificationLog) → IsCarried format send e P R l → IsScoped l
  unfolding matches
  carried-IsScoped own l (company, (g, id, ((p, usable), serves)), (r, channel, rule, match)) =
      let usable_ = rw own at usable in
      let match_ = rw own at match in
      (
        company ∙ own,
        (
          g,
          id,
          p,
          ground (arith, usable_),
          in_scope-IsOwned c g.company_id (ground (arith, usable_)),
        ),
        (
          r,
          channel,
          rule,
          ground (arith, match_),
          text_eq→eq r.event_type e.event_type (ground (arith, match_)),
          in_scope-IsOwned c r.company_id (ground (arith, match_)),
        ),
      )

  -- An event of a tenant stays with the tenant and the platform: every delivery row carries the tenant,
  -- names a gateway of the table that is active and the tenant's own or the platform's, and stands for
  -- a rule of the table that is enabled, of the event's type, and the tenant's own or the platform's.
  -- `P` and `R` are any properties that all gateways and all rules of the tables have.
  pub dispatch_event-IsScoped :
      (rules : List NotificationRule) (gateways : List NotificationGateway)
      → e.company_id ≡ some c
      → All R rules
      → All P gateways
      → All IsScoped (dispatch_event format send e rules gateways).1.logs
  dispatch_event-IsScoped rules gateways own rs gs =
      All-weaken (IsCarried format send e P R) IsScoped (carried-IsScoped own)
        (dispatch_event format send e rules gateways).1.logs
        (dispatch_event-IsCarried format send e P R rules gateways rs gs)
