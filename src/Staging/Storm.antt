-- ===== src/Staging/Storm.antt =====
-- Storm control: a parked row always has a timer, and when parking a row raises.
use k8s_alert_manager.Prelude.{
  ℕ, zero, suc, ◌+◌, ◌≤◌, ◌<◌, ◌≡◌, refl, sym, ap, ◌↔◌, ◌⊎◌, inl, inr, ltb, Bool-cases, Bool, true,
  false, Option, some, [], ◌∷◌, any, count, count-append, arith,
}
use k8s_alert_manager.Models.Channel.{Channel}
use k8s_alert_manager.Models.Outbox.{Trigger, Payload, Status}
use k8s_alert_manager.Models.Scheduled.{ScheduledAction, is_digest_flush}
use k8s_alert_manager.Models.Scheduled
use k8s_alert_manager.Models.Db.{Db}
use k8s_alert_manager.Exec.{Error, Result, ok, err, multiple_results, overflow, ◌>>=◌}
use k8s_alert_manager.Staging.{
  channel_needs_parking, pending_flush, ensure_digest_flush_scheduled, has_key, found_one,
  stage_outbox_row, minutes, datetime_max, add_flush, flush_action, new_row, add_row,
}

flush_action-pending :
    (id now : ℕ) (channel : Channel) → pending_flush channel.id (flush_action id now channel) ≡ true
unfolding pending_flush is_digest_flush Scheduled.is_pending
flush_action-pending id now channel = ground arith

count-flush :
    (now : ℕ) (channel : Channel) (db : Db)
    → (ensure_digest_flush_scheduled now channel db).0 ≡ ok tt
    → count (pending_flush channel.id) (ensure_digest_flush_scheduled now channel db).1.actions ≡ 1
unfolding ensure_digest_flush_scheduled
count-flush now channel db h = by_count (count (pending_flush channel.id) db.actions) refl
  where
    by_count :
        (n : ℕ)
        → count (pending_flush channel.id) db.actions ≡ n
        → count (pending_flush channel.id) (ensure_digest_flush_scheduled now channel db).1.actions
          ≡ 1
    by_count zero e = ground (
      arith,
      flush_action-pending db.next_action_id now channel,
      count-append (pending_flush channel.id) db.actions
          (flush_action db.next_action_id now channel ∷ []),
    )
    by_count (suc zero) e = ground arith
    by_count (suc (suc n)) e = ground arith

-- Why the flush timer of a channel cannot be scheduled.
abbrev pub Blocks : ℕ → Channel → Db → Error → Type 0
Blocks now channel db x =
    (x ≡ multiple_results) × (2 ≤ count (pending_flush channel.id) db.actions)
    ⊎ (x ≡ overflow)
      × (count (pending_flush channel.id) db.actions ≡ 0)
      × (datetime_max < now + minutes channel.digest_window_minutes)

ensure-raises_iff :
    (now : ℕ) (channel : Channel) (db : Db) (x : Error)
    → ((ensure_digest_flush_scheduled now channel db).0 ≡ err x) ↔ Blocks now channel db x
unfolding ensure_digest_flush_scheduled found_one
ensure-raises_iff now channel db x = by_count (count (pending_flush channel.id) db.actions)
  where
    due : ℕ
    due = now + minutes channel.digest_window_minutes

    by_count :
        (n : ℕ)
        → (((do existing ← found_one n; add_flush now channel existing) db).0 ≡ err x)
          ↔ ((x ≡ multiple_results) × (2 ≤ n) ⊎ (x ≡ overflow) × (n ≡ 0) × (datetime_max < due))
    by_count zero = elim (Bool-cases (ltb datetime_max due)) [
      | inl late ↦ (
        λ h. inr (ground (arith, rw late at h), refl, ground (arith, late)),
        λ h. elim h [
          | inl two ↦ absurd (omega (arith, two.1))
          | inr over ↦ rw late (ap err (sym over.0))
        ],
      )
      | inr fits ↦ (
        λ h. absurd (ground (arith, rw fits at h)),
        λ h. elim h [
          | inl two ↦ absurd (omega (arith, two.1))
          | inr over ↦ absurd (ground (arith, fits, over.2))
        ],
      )
    ]
    by_count (suc zero) = (
      λ h. absurd (ground (arith, h)),
      λ h. elim h [
        | inl two ↦ absurd (omega (arith, two.1))
        | inr over ↦ absurd (omega (arith, over.1))
      ],
    )
    by_count (suc (suc n)) = (
      λ h. inl (ground (arith, h), omega arith),
      λ h. elim h [ inl two ↦ ap err (sym two.0) | inr over ↦ absurd (omega (arith, over.1)) ],
    )

module _ (now event_id : ℕ) (rule_id : Option ℕ) (channel : Channel) (team_id : ℕ)
    (trigger : Trigger) (payload : Payload) (db : Db) where
  abbrev stage : Result Bool × Db
  stage = stage_outbox_row now event_id rule_id channel (some team_id) trigger payload db

  -- When a channel needs parking and a row is staged for it, the channel has exactly one pending
  -- flush timer afterwards.
  pub parked-has_timer :
      channel_needs_parking db now channel ≡ true
      → stage.0 ≡ ok true
      → count (pending_flush channel.id) stage.1.actions ≡ 1
  unfolding stage_outbox_row
  parked-has_timer park done =
      let db' =
        add_row
          (new_row db.next_outbox_id now event_id rule_id channel.id team_id trigger payload
            Status.digested)
          db in
      ground (arith, count-flush now channel db')

  -- Staging a row for a team raises exactly when its key is free, the channel needs parking, and either
  -- two or more flush timers of the channel are pending (MultipleResultsFound), or none is and the
  -- window of the channel ends behind the last datetime (OverflowError).
  pub stage_outbox_row-raises_iff :
      (x : Error)
      → (stage.0 ≡ err x) ↔ (
          (any (has_key event_id channel.id trigger) db.outbox ≡ false)
          × (channel_needs_parking db now channel ≡ true)
          × Blocks now channel db x)
  unfolding stage_outbox_row
  stage_outbox_row-raises_iff x = (λ h. to h, λ (free, park, blocked). from free park blocked)
    where
      parked_db : Db
      parked_db =
          add_row
            (new_row db.next_outbox_id now event_id rule_id channel.id team_id trigger payload
              Status.digested)
            db

      to :
          stage.0 ≡ err x
          → (any (has_key event_id channel.id trigger) db.outbox ≡ false)
            × (channel_needs_parking db now channel ≡ true)
            × Blocks now channel db x
      to h = elim (Bool-cases (any (has_key event_id channel.id trigger) db.outbox)) [
        | inl there ↦ absurd (ground (arith, rw there at h))
        | inr free ↦ elim (Bool-cases (channel_needs_parking db now channel)) [
          | inr calm ↦ absurd (ground (arith, rw (free, calm) at h))
          | inl park ↦ (
            free,
            park,
            (ensure-raises_iff now channel parked_db x).0 (ground (arith, rw (free, park) at h)),
          )
        ]
      ]

      from :
          any (has_key event_id channel.id trigger) db.outbox ≡ false
          → channel_needs_parking db now channel ≡ true
          → Blocks now channel db x
          → stage.0 ≡ err x
      from free park blocked =
          let raised = (ensure-raises_iff now channel parked_db x).1 blocked in
          rw (free, park) (ground (arith, raised))
