-- ===== src/Worker/Digest.antt =====
-- `_dispatch_digest_flush` of backend/app/worker/scheduler.py.
use k8s_alert_manager.Prelude.{
  ℕ, min, Bool, true, not, ◌&&◌, Option, none, some, List, [], ◌∷◌, filter, length, leb, is_some,
  update_where, ◌==◌, if◌then◌else◌,
}
use k8s_alert_manager.Models.Channel.{Channel}
use k8s_alert_manager.Models.Outbox.{
  NotificationOutbox, Payload, Payloads, nil, cons, Status, is_digested, Trigger,
}
use k8s_alert_manager.Models.Scheduled.{ScheduledAction}
use k8s_alert_manager.Models.Db.{Db, get_channel}
use k8s_alert_manager.Exec.{Exec, skip, raise, modify}
use k8s_alert_manager.Staging.{add_row}

unfoldable pub is_parked : ℕ → NotificationOutbox → Bool
unfolding is_digested
is_parked channel_id r =
    r.channel_id == channel_id && is_digested r.status && not (is_some r.digested_into_id)

-- ORDER BY created_at
unfoldable pub insert_by_created :
    NotificationOutbox → List NotificationOutbox → List NotificationOutbox
insert_by_created r [] = r ∷ []
insert_by_created r (x ∷ xs) =
    let later = insert_by_created r xs in
    if leb r.created_at x.created_at then r ∷ x ∷ xs else x ∷ later

unfoldable pub order_by_created : List NotificationOutbox → List NotificationOutbox
unfolding insert_by_created
order_by_created [] = []
order_by_created (r ∷ rs) = insert_by_created r (order_by_created rs)

unfoldable pub parked_rows : ℕ → Db → List NotificationOutbox
unfolding is_parked order_by_created
parked_rows channel_id db = order_by_created (filter (is_parked channel_id) db.outbox)

unfoldable pub payloads_of : List NotificationOutbox → Payloads
payloads_of [] = nil
payloads_of (r ∷ rs) = cons r.payload (payloads_of rs)

unfoldable pub min_created : ℕ → List NotificationOutbox → ℕ
min_created t [] = t
min_created t (r ∷ rs) = min_created (min t r.created_at) rs

abbrev pub digest_payload : List NotificationOutbox → ℕ → Payload
digest_payload parked window_started_at =
    Payload.digest (payloads_of parked) (length parked) window_started_at

abbrev pub aggregate_row : ℕ → ℕ → Channel → Payload → NotificationOutbox
aggregate_row id now channel payload = record {
  id = id;
  alert_event_id = none;
  routing_rule_id = none;
  channel_id = channel.id;
  team_id = channel.team_id;
  trigger = Trigger.digest;
  payload = payload;
  status = Status.pending;
  attempts = 0;
  is_digest = true;
  digested_into_id = none;
  next_attempt_at = now;
  locked_by = none;
  locked_at = none;
  last_error = none;
  created_at = now;
  delivered_at = none;
}

abbrev pub restored : NotificationOutbox → NotificationOutbox
restored r = record r { status = Status.pending }

abbrev pub linked_to : ℕ → NotificationOutbox → NotificationOutbox
linked_to id r = record r { digested_into_id = some id }

-- The rows of the query are the objects that are changed.
abbrev pub set_parked : ℕ → (NotificationOutbox → NotificationOutbox) → Db → Db
set_parked channel_id f db = record db { outbox = update_where (is_parked channel_id) f db.outbox }

-- With the parked rows loaded.
unfoldable pub flush_rows : ℕ → Channel → List NotificationOutbox → Db → Db
unfolding is_parked payloads_of min_created
flush_rows now channel [] db = db
flush_rows now channel (r ∷ []) db = set_parked channel.id restored db
flush_rows now channel (r ∷ s ∷ rs) db =
    let parked = r ∷ s ∷ rs in
    let payload = digest_payload parked (min_created r.created_at (s ∷ rs)) in
    let added = add_row (aggregate_row db.next_outbox_id now channel payload) db in
    set_parked channel.id (linked_to db.next_outbox_id) added

abbrev pub flush_channel : ℕ → Option Channel → Exec (Unit {0})
flush_channel now none = raise skip
flush_channel now (some channel) = if is_some channel.deleted_at then raise skip else λ db.
    modify (flush_rows now channel (parked_rows channel.id db)) db

unfoldable pub dispatch_digest_flush : ℕ → ScheduledAction → Exec (Unit {0})
unfolding parked_rows flush_rows
dispatch_digest_flush now a = elim a.channel_id [
  | none ↦ raise skip
  | some id ↦ λ db. flush_channel now (get_channel db id) db
]
