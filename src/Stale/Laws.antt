-- ===== src/Stale/Laws.antt =====
-- What a sweep leaves: each tank judged by its silence, and its alarm key open while it is silent.
use fuel_monitoring.Prelude.{
  ℕ, ◌+◌, ◌≡◌, refl, ◌≢◌, ◌⊎◌, inl, inr, sym, ◌∙◌, ap, Bool, true, false, not, Option, none, some,
  List, [], ◌∷◌, All, arith, Bool-cases, if◌then◌else◌,
}
use fuel_monitoring.Redis.{Redis, RedisLaws}
use fuel_monitoring.Stale.Alarm.{
  Message, AlarmWorld, LostAlarm, one, is_open, raise_or_clear, raise_alarm, clear_alarm, clear_row,
  newest_live,
}
use fuel_monitoring.Stale.Devices.{
  Tank, Tally, Connection, online, offline, is_offline, stale_at, silent_seconds, judge_as, visit,
  sweep_tanks, message_for,
}

module _ {V : Type 0} (r : Redis ℕ V) (laws : RedisLaws r) (now : ℕ) where
  -- Clearing closes the key, whether or not a live row exists, and no other key.
  clear_row-store :
      (m : Message) (o : Option LostAlarm) (w : AlarmWorld r.Store)
      → (clear_row r now m o w).1.store ≡ w.store
  clear_row-store m none w = refl
  clear_row-store m (some a) w = refl

  clear_alarm-is_open :
      (tank : ℕ) (m : Message) (w : AlarmWorld r.Store)
      → is_open r tank (clear_alarm r now tank m w).1 ≡ false
  unfolding clear_alarm
  clear_alarm-is_open tank m w =
      ap (λ (s : r.Store). r.sismember tank one s)
        (clear_row-store m (newest_live tank w.rows) (record w { store = r.srem tank one w.store }))
      ∙ laws.sismember-srem_self tank one w.store

  clear_alarm-is_open_ne :
      (tank j : ℕ) (m : Message) (w : AlarmWorld r.Store)
      → tank ≢ j
      → is_open r j (clear_alarm r now tank m w).1 ≡ is_open r j w
  unfolding clear_alarm
  clear_alarm-is_open_ne tank j m w h =
      ap (λ (s : r.Store). r.sismember j one s)
        (clear_row-store m (newest_live tank w.rows) (record w { store = r.srem tank one w.store }))
      ∙ laws.sismember-srem_ne tank j one one w.store (inl h)

  raise_or_clear-is_open :
      (tank : ℕ) (reported : Bool) (m : Message) (w : AlarmWorld r.Store)
      → is_open r tank (raise_or_clear r now tank reported m w).1 ≡ not reported
  unfolding raise_or_clear raise_alarm
  raise_or_clear-is_open tank true m w = elim (Bool-cases (is_open r tank w)) [
    | inl y ↦ rw y (clear_alarm-is_open tank m w)
    | inr n ↦ rw n n
  ]
  raise_or_clear-is_open tank false m w = elim (Bool-cases (is_open r tank w)) [
    | inl y ↦ rw y y
    | inr n ↦ rw n (laws.sismember-sadd_self tank one w.store)
  ]

  raise_or_clear-is_open_ne :
      (tank j : ℕ) (reported : Bool) (m : Message) (w : AlarmWorld r.Store)
      → tank ≢ j
      → is_open r j (raise_or_clear r now tank reported m w).1 ≡ is_open r j w
  unfolding raise_or_clear raise_alarm
  raise_or_clear-is_open_ne tank j true m w h = elim (Bool-cases (is_open r tank w)) [
    | inl y ↦ rw y (clear_alarm-is_open_ne tank j m w h)
    | inr n ↦ rw n refl
  ]
  raise_or_clear-is_open_ne tank j false m w h = elim (Bool-cases (is_open r tank w)) [
    | inl y ↦ rw y refl
    | inr n ↦ rw n (laws.sismember-sadd_ne tank j one one w.store (inl h))
  ]

  -- A tank as a sweep leaves it: deleted, or judged by its silence with its key to match.
  abbrev pub IsJudged : AlarmWorld r.Store → Tank → Type 0
  IsJudged w t =
      (t.is_deleted ≡ true)
      ⊎ ((t.connection_status ≡ (if stale_at r now t then offline else online))
          × (is_open r t.id w ≡ stale_at r now t))

  abbrev DiffersFrom : ℕ → Tank → Type 0
  DiffersFrom id t = id ≢ t.id

  abbrev pub AreDistinct : List Tank → Type 0
  AreDistinct [] = Unit
  AreDistinct (t ∷ ts) = All (DiffersFrom t.id) ts × AreDistinct ts

  visit-is_open :
      (d : Bool) (t : Tank) (j : ℕ) (y : Tally) (w : AlarmWorld r.Store)
      → j ≢ t.id
      → is_open r j (visit r now d t y w).1.1 ≡ is_open r j w
  unfolding visit judge_as
  visit-is_open true t j y w h = refl
  visit-is_open false t j y w h =
      raise_or_clear-is_open_ne t.id j (not (stale_at r now t))
        (message_for r now (stale_at r now t) (silent_seconds now t.last_connection)) w
        (λ e. h (sym e))

  visit-IsJudged :
      (d : Bool) (t : Tank) (y : Tally) (w : AlarmWorld r.Store)
      → t.is_deleted ≡ d
      → let (t', (_, w')) = visit r now d t y w in (t'.id ≡ t.id) × IsJudged w' t'
  unfolding visit judge_as
  visit-IsJudged true t y w h = (refl, inl h)
  visit-IsJudged false t y w h = (
    refl,
    inr (
      refl,
      ground (
        arith,
        raise_or_clear-is_open t.id (not (stale_at r now t))
            (message_for r now (stale_at r now t) (silent_seconds now t.last_connection)) w,
      ),
    ),
  )

  judge_as_again :
      (stale : Bool) (s : Option ℕ) (t : Tank) (y : Tally) (w : AlarmWorld r.Store)
      → t.connection_status ≡ (if stale then offline else online)
      → is_open r t.id w ≡ stale
      → judge_as r now stale s t y w ≡ (t, (y, w))
  unfolding judge_as raise_or_clear
  judge_as_again true s t y w status key = rw key (
      ap
        (λ (c : Connection). (
          record t { connection_status = offline },
          (
            record y {
              tanks_marked_offline =
                  if not (is_offline c) then y.tanks_marked_offline + 1 else y.tanks_marked_offline;
            },
            w,
          ),
        ))
        status
      ∙ ap (λ (c : Connection). (record t { connection_status = c }, (y, w))) (sym status))
  judge_as_again false s t y w status key = rw key (
      ap
        (λ (c : Connection). (
          record t { connection_status = online },
          (
            record y {
              tanks_recovered = if is_offline c then y.tanks_recovered + 1 else y.tanks_recovered;
            },
            w,
          ),
        ))
        status
      ∙ ap (λ (c : Connection). (record t { connection_status = c }, (y, w))) (sym status))

  visit_again :
      (d : Bool) (t : Tank) (y : Tally) (w : AlarmWorld r.Store)
      → t.is_deleted ≡ d
      → IsJudged w t
      → visit r now d t y w ≡ (t, (y, w))
  unfolding visit
  visit_again true t y w h judged = refl
  visit_again false t y w h (inl gone) = absurd (cc)
  visit_again false t y w h (inr (status, key)) =
      judge_as_again (stale_at r now t) (silent_seconds now t.last_connection) t y w status key

  -- Tanks with other ids leave a key as it is.
  sweep_tanks-is_open :
      (j : ℕ) (ts : List Tank) (y : Tally) (w : AlarmWorld r.Store)
      → All (DiffersFrom j) ts
      → is_open r j (sweep_tanks r now ts y w).1.1 ≡ is_open r j w
  unfolding sweep_tanks
  sweep_tanks-is_open j [] y w h = refl
  sweep_tanks-is_open j (t ∷ ts) y w h =
      let (t', (y1, w1)) = visit r now t.is_deleted t y w in
      sweep_tanks-is_open j ts y1 w1 h.1 ∙ visit-is_open t.is_deleted t j y w h.0

  key_moves :
      (t : Tank) (w w' : AlarmWorld r.Store)
      → is_open r t.id w' ≡ is_open r t.id w
      → IsJudged w t
      → IsJudged w' t
  key_moves t w w' same (inl gone) = inl gone
  key_moves t w w' same (inr (status, key)) = inr (status, same ∙ key)

  -- A sweep over tanks with different ids leaves every tank that is not deleted offline with an open
  -- key when it has been silent for too long, and online with a closed key otherwise.
  pub sweep_tanks-IsJudged :
      (ts : List Tank) (y : Tally) (w : AlarmWorld r.Store)
      → AreDistinct ts
      → let (after, (_, w')) = sweep_tanks r now ts y w in All (IsJudged w') after
  unfolding sweep_tanks
  sweep_tanks-IsJudged [] y w h = tt
  sweep_tanks-IsJudged (t ∷ ts) y w h =
      let (t', (y1, w1)) = visit r now t.is_deleted t y w in
      let (same_id, judged) = visit-IsJudged t.is_deleted t y w refl in
      let (rest, (y2, w2)) = sweep_tanks r now ts y1 w1 in
      let key = sweep_tanks-is_open t.id ts y1 w1 h.0 in
      (
        key_moves t' w1 w2
            (ap (λ (i : ℕ). is_open r i w2) same_id
              ∙ key
              ∙ ap (λ (i : ℕ). is_open r i w1) (sym same_id))
            judged,
        sweep_tanks-IsJudged ts y1 w1 h.1,
      )

  judged_again :
      (ts : List Tank) (z : Tally) (w : AlarmWorld r.Store)
      → All (IsJudged w) ts
      → sweep_tanks r now ts z w ≡ (ts, (z, w))
  unfolding sweep_tanks
  judged_again [] z w h = refl
  judged_again (t ∷ ts) z w h =
      rw (visit_again t.is_deleted t z w refl h.0, judged_again ts z w h.1) refl

  -- A second sweep over tanks with different ids at the same time changes nothing and counts nothing.
  pub sweep_tanks_again :
      (ts : List Tank) (y z : Tally) (w : AlarmWorld r.Store)
      → AreDistinct ts
      → let (after, (_, w')) = sweep_tanks r now ts y w in
        sweep_tanks r now after z w' ≡ (after, (z, w'))
  sweep_tanks_again ts y z w h =
      let (after, (y', w')) = sweep_tanks r now ts y w in
      judged_again after z w' (sweep_tanks-IsJudged ts y w h)
