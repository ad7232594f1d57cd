-- ===== src/Staging/Keys.antt =====
-- The dedup key of the outbox: staging adds at most one row for each (event, channel, trigger).
use k8s_alert_manager.Prelude.{
  ℕ, ◌≤◌, ◌≡◌, refl, sym, ◌∙◌, ◌⊎◌, inl, inr, Bool, true, false, Option, none, some, List, [], ◌∷◌,
  ◌++◌, any, count, count-append, count-zero_of_any, Bool-cases, arith,
}
use k8s_alert_manager.Models.Channel.{Channel}
use k8s_alert_manager.Models.Outbox.{
  Trigger, trigger_eq_refl, trigger_eq→eq, Payload, NotificationOutbox, Status,
}
use k8s_alert_manager.Models.Db.{Db}
use k8s_alert_manager.Exec.{Result, ok}
use k8s_alert_manager.Staging.{
  channel_needs_parking, ensure_digest_flush_scheduled, has_key, stage_outbox_row, new_row, add_row,
}

-- No two rows share an event, a channel and a trigger.
pub record UniqueKeys (db : Db) : Type 0 where
  pub at_key :
      (event_id channel_id : ℕ) (t : Trigger) → count (has_key event_id channel_id t) db.outbox ≤ 1

-- The storm control's timer touches no outbox row.
pub outbox-ensure_flush :
    (now : ℕ) (channel : Channel) (db : Db)
    → (ensure_digest_flush_scheduled now channel db).1.outbox ≡ db.outbox
unfolding ensure_digest_flush_scheduled
outbox-ensure_flush now channel db = ground arith

module _ (now event_id : ℕ) (rule_id : Option ℕ) (channel : Channel) (team : Option ℕ)
    (trigger : Trigger) (payload : Payload) (db : Db) where
  abbrev pub staged : Result Bool × Db
  staged = stage_outbox_row now event_id rule_id channel team trigger payload db

  -- Either nothing changed, or the key was free and one row was added behind the others.
  pub data Staged : Type 0 where
    kept :
        (team ≡ none) ⊎ (any (has_key event_id channel.id trigger) db.outbox ≡ true)
        → staged.1 ≡ db
        → staged.0 ≡ ok false
        → Staged
    added :
        (team_id : ℕ) (status : Status)
        → team ≡ some team_id
        → (status ≡ Status.pending) ⊎ (status ≡ Status.digested)
        → any (has_key event_id channel.id trigger) db.outbox ≡ false
        → staged.1.outbox
          ≡ db.outbox
            ++ new_row db.next_outbox_id now event_id rule_id channel.id team_id trigger payload
                status
              ∷ []
        → Staged

-- What staging does to the outbox.
pub stage_outbox_row-Staged :
    (now event_id : ℕ) (rule_id : Option ℕ) (channel : Channel) (team : Option ℕ)
    (trigger : Trigger) (payload : Payload) (db : Db)
    → Staged now event_id rule_id channel team trigger payload db
unfolding stage_outbox_row
stage_outbox_row-Staged now event_id rule_id channel none trigger payload db =
    kept (inl refl) refl refl
stage_outbox_row-Staged now event_id rule_id channel (some team_id) trigger payload db =
    elim (Bool-cases (any (has_key event_id channel.id trigger) db.outbox)) [
      | inl old ↦ kept (inr old) (ground arith) (ground arith)
      | inr free ↦ elim (Bool-cases (channel_needs_parking db now channel)) [
        | inl park ↦ added team_id Status.digested refl (inr refl) free (
            ground (
              arith,
              outbox-ensure_flush now channel (
                  add_row
                    (new_row db.next_outbox_id now event_id rule_id channel.id team_id trigger
                      payload Status.digested)
                    db),
            ))
        | inr queue ↦ added team_id Status.pending refl (inl refl) free (ground arith)
      ]
    ]

-- A row with one key can only be counted under that key.
same_key :
    (e c e' c' : ℕ) (t t' : Trigger) (r : NotificationOutbox)
    → has_key e c t r ≡ true
    → has_key e' c' t' r ≡ true
    → (e ≡ e') × (c ≡ c') × (t ≡ t')
unfolding has_key
same_key e c e' c' t t' r h k = (
  ground arith,
  ground arith,
  sym (trigger_eq→eq r.trigger t (ground arith)) ∙ trigger_eq→eq r.trigger t' (ground arith),
)

pub new_row-has_key :
    (id now e : ℕ) (rule_id : Option ℕ) (c team_id : ℕ) (t : Trigger) (payload : Payload)
    (status : Status)
    → has_key e c t (new_row id now e rule_id c team_id t payload status) ≡ true
unfolding has_key
new_row-has_key id now e rule_id c team_id t payload status = ground (arith, trigger_eq_refl t)

-- Adding a row whose key is free keeps the keys distinct.
pub UniqueKeys-append :
    (rows : List NotificationOutbox) (r : NotificationOutbox) (e c : ℕ) (t : Trigger)
    → ((e' c' : ℕ) (t' : Trigger) → count (has_key e' c' t') rows ≤ 1)
    → has_key e c t r ≡ true
    → any (has_key e c t) rows ≡ false
    → (e' c' : ℕ) (t' : Trigger) → count (has_key e' c' t') (rows ++ r ∷ []) ≤ 1
UniqueKeys-append rows r e c t u own free e' c' t' = elim (Bool-cases (has_key e' c' t' r)) [
  | inr other ↦ ground (arith, count-append (has_key e' c' t') rows (r ∷ []), u e' c' t')
  | inl same ↦
      let (pe, pc, pt) = same_key e c e' c' t t' r own same in
      let none_there : count (has_key e' c' t') rows ≡ 0 =
        rw (← pe, ← pc, ← pt) (count-zero_of_any (has_key e c t) rows free) in
      ground (arith, count-append (has_key e' c' t') rows (r ∷ []), none_there)
]

module _ (now event_id : ℕ) (rule_id : Option ℕ) (channel : Channel) (team : Option ℕ)
    (trigger : Trigger) (payload : Payload) (db : Db) where
  -- Staging keeps the keys of the outbox distinct, on each of its branches.
  pub stage_outbox_row-UniqueKeys :
      UniqueKeys db
      → UniqueKeys (stage_outbox_row now event_id rule_id channel team trigger payload db).1
  stage_outbox_row-UniqueKeys u =
      elim (stage_outbox_row-Staged now event_id rule_id channel team trigger payload db) [
        | kept why e r ↦ rw e u
        | added team_id status h waits free e ↦ record {
          at_key = λ e' c' t'. rw e (
              UniqueKeys-append db.outbox _ event_id channel.id trigger u.at_key
                (new_row-has_key _ now event_id rule_id channel.id team_id trigger payload status)
                free e' c' t');
        }
      ]
