-- ===== src/Route/Repeats.antt =====
-- Routing the same transition of an event again: `_stage_outbox` of backend/app/services/routing.py.
use k8s_alert_manager.Prelude.{
  ℕ, suc, ◌≡◌, refl, ◌∙◌, inl, inr, Bool, true, some, [], ◌∷◌, any, any-append, any-snoc, All,
  if◌then◌else◌, arith,
}
use k8s_alert_manager.Models.Alert.{EventStatus}
use k8s_alert_manager.Models.Channel.{Channel}
use k8s_alert_manager.Models.Routing.{RoutingRule}
use k8s_alert_manager.Models.Outbox.{transition, Payload, NotificationOutbox}
use k8s_alert_manager.Models.Db.{Db}
use k8s_alert_manager.Exec.{Exec, Result, ok, err, pure, continue, ◌>>=◌}
use k8s_alert_manager.Staging.{has_key, stage_outbox_row}
use k8s_alert_manager.Staging.Keys.{kept, added, stage_outbox_row-Staged, new_row-has_key}
use k8s_alert_manager.Route.Owner.{Matches, stage_outbox}
use k8s_alert_manager.Route.Growth.{Grows, stage_outbox-Grows}

-- A channel that has a row for the event and the trigger already.
abbrev pub HasRow : ℕ → EventStatus → Db → Channel × RoutingRule → Type 0
HasRow event_id trigger db m = any (has_key event_id m.0.id (transition trigger)) db.outbox ≡ true

pub HasRow-grown :
    {P : NotificationOutbox → Type 0} (event_id : ℕ) (trigger : EventStatus) (db db' : Db)
    (m : Channel × RoutingRule)
    → Grows P db db'
    → HasRow event_id trigger db m
    → HasRow event_id trigger db' m
HasRow-grown event_id trigger db db' m g k = rw g.split (any-append _ db.outbox g.new ∙ rw k refl)

module _ (now event_id : ℕ) (trigger : EventStatus) (team_id : ℕ) (payload : Payload) where
  abbrev row : Channel × RoutingRule → Exec Bool
  row (c, rule) =
      stage_outbox_row now event_id (some rule.id) c (some team_id) (transition trigger) payload

  row-HasRow : (m : Channel × RoutingRule) (db : Db) → HasRow event_id trigger (row m db).1 m
  row-HasRow (c, rule) db =
      elim (stage_outbox_row-Staged now event_id (some rule.id) c (some team_id)
        (transition trigger) payload db) [
          | kept why same r ↦
              rw same (elim why [ inl gone ↦ absurd (ground arith) | inr there ↦ there ])
          | added t status h waits free split ↦ rw split (
              any-snoc _ db.outbox _ (
                new_row-has_key db.next_outbox_id now event_id (some rule.id) c.id t
                  (transition trigger) payload status))
        ]

  no_second_row :
      (ms : Matches) (db : Db)
      → All (HasRow event_id trigger db) ms
      → stage_outbox now event_id trigger team_id payload ms db ≡ (ok 0, db)
  unfolding stage_outbox stage_outbox_row
  no_second_row [] db h = refl
  no_second_row ((c, rule) ∷ ms) db h = rw (h.0, no_second_row ms db h.1) refl

  pub stage_outbox-HasRow :
      (ms : Matches) (db : Db) (n : ℕ)
      → (stage_outbox now event_id trigger team_id payload ms db).0 ≡ ok n
      → All (HasRow event_id trigger (stage_outbox now event_id trigger team_id payload ms db).1) ms
  unfolding stage_outbox
  stage_outbox-HasRow [] db n h = tt
  stage_outbox-HasRow ((c, rule) ∷ ms) db n h =
      by_row (row (c, rule) db).0 (row (c, rule) db).1 (row-HasRow (c, rule) db)
        (stage_outbox-HasRow ms (row (c, rule) db).1) h
    where
      rest : Bool → Exec ℕ
      rest inserted = do
        created ← stage_outbox now event_id trigger team_id payload ms
        pure (if inserted then suc created else created)

      by_rest :
          (b : Bool) (r : Result ℕ) (db1 db2 : Db)
          → ((k : ℕ) → r ≡ ok k → All (HasRow event_id trigger db2) ms)
          → HasRow event_id trigger db2 (c, rule)
          → (continue r (λ created. pure (if b then suc created else created)) db2).0 ≡ ok n
          → All
              (HasRow event_id trigger
                (continue r (λ created. pure (if b then suc created else created)) db2).1)
              ((c, rule) ∷ ms)
      by_rest b (ok k) db1 db2 more here e = (here, more k refl)
      by_rest b (err x) db1 db2 more here e = absurd (ground arith)

      by_row :
          (r : Result Bool) (db1 : Db)
          → HasRow event_id trigger db1 (c, rule)
          → ((k : ℕ)
              → (stage_outbox now event_id trigger team_id payload ms db1).0 ≡ ok k
              → All
                  (HasRow event_id trigger
                    (stage_outbox now event_id trigger team_id payload ms db1).1)
                  ms)
          → (continue r rest db1).0 ≡ ok n
          → All (HasRow event_id trigger (continue r rest db1).1) ((c, rule) ∷ ms)
      by_row (err x) db1 here more e = absurd (ground arith)
      by_row (ok b) db1 here more e =
          let after = stage_outbox now event_id trigger team_id payload ms db1 in
          by_rest b after.0 db1 after.1 more
            (HasRow-grown event_id trigger db1 after.1 (c, rule)
              ((stage_outbox-Grows now event_id trigger team_id payload ms).at db1) here)
            e

  -- Staging the channels of a transition once, without an exception, makes staging them again, for the same event and
  -- trigger, add no row and change nothing.
  pub stage_outbox_twice :
      (ms : Matches) (db : Db) (n : ℕ)
      → let staged = stage_outbox now event_id trigger team_id payload ms db in
        staged.0 ≡ ok n
        → stage_outbox now event_id trigger team_id payload ms staged.1 ≡ (ok 0, staged.1)
  stage_outbox_twice ms db n h = no_second_row ms _ (stage_outbox-HasRow ms db n h)
