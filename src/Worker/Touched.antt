-- ===== src/Worker/Touched.antt =====
-- A tick of the outbox worker changes the rows that it claims and no others.
use k8s_alert_manager.Prelude.{
  ℕ, ◌≡◌, refl, ◌∙◌, ◌⊎◌, inl, inr, String, true, false, Option, none, some, List, [], ◌∷◌,
  find-passes, subst, elem, ◌==◌, ==_iff, All2, All2-refl, All2-trans, All2-update_where,
  All2-weaken, All2-with, Bool-cases, arith,
}
use k8s_alert_manager.Models.Outbox.{NotificationOutbox}
use k8s_alert_manager.Models.Channel.{Channel}
use k8s_alert_manager.Models.Routing.{RoutingRule}
use k8s_alert_manager.Models.Db.{Db, get_outbox, set_outbox, get_channel}
use k8s_alert_manager.Exec.{Result, ok, err}
use k8s_alert_manager.Route.Timers.{schedule_renotify}
use k8s_alert_manager.Worker.Claim.{is_due, claimed_by, due_ids, claim_batch}
use k8s_alert_manager.Worker.Due.{UniqueIds, idle-not_claimed}
use k8s_alert_manager.Worker.Attempt.{
  Channels, Config, usable, invalid, failing, Attempt, sent, failure, attempt, get_row_rule,
}
use k8s_alert_manager.Worker.Deliver.{
  mark_dead, mark_delivered, mark_delivery_failure, renotify_after, settle, deliver, refusal,
  refuse_or, to_channel, configured, on_config, or_rollback, Turn, deliver_found, deliver_one,
  deliver_all, run_tick,
}

-- The id stays, and a row whose id is not in the list stays as it is.
record Touches (ids : List ℕ) (r r' : NotificationOutbox) : Type 0 where
  id : r'.id ≡ r.id
  other : elem r.id ids ≡ false → r' ≡ r

abbrev Touched : List ℕ → Db → Db → Type 0
Touched ids db db' = All2 (Touches ids) db.outbox db'.outbox

Touches-same : (ids : List ℕ) (r : NotificationOutbox) → Touches ids r r
Touches-same ids r = record { id = refl; other = λ h. refl }

Touched-trans : (ids : List ℕ) (a b c : Db) → Touched ids a b → Touched ids b c → Touched ids a c
Touched-trans ids a b c =
    All2-trans _ _ _ a.outbox b.outbox c.outbox
      λ x y z f g. record { id = g.id ∙ f.id; other = λ h. g.other (rw f.id h) ∙ f.other h }

-- An update of one row by its id, by a function that keeps ids.
set_outbox-Touched :
    (id : ℕ) (f : NotificationOutbox → NotificationOutbox) (db : Db)
    → ((r : NotificationOutbox) → (f r).id ≡ r.id)
    → Touched (id ∷ []) db (set_outbox id f db)
set_outbox-Touched id f db keep = All2-update_where _ _ f db.outbox λ r.
    elim (Bool-cases (r.id == id)) [
      | inl e ↦ rw e (record { id = keep r; other = λ h. ground arith })
      | inr e ↦ rw e (Touches-same _ r)
    ]

pub outbox-renotify :
    (now : ℕ) (r : NotificationOutbox) (rule : Option RoutingRule) (db : Db)
    → (renotify_after now r rule db).1.outbox ≡ db.outbox
unfolding renotify_after schedule_renotify
outbox-renotify now r none db = refl
outbox-renotify now r (some rule) db = ground arith

module _ (ch : Channels) (now jitter : ℕ) (r : NotificationOutbox) (db : Db) where
  dead-Touched : (reason : String) → Touched (r.id ∷ []) db (set_outbox r.id (mark_dead reason) db)
  dead-Touched reason =
      set_outbox-Touched r.id (mark_dead reason) db (λ x. unfold mark_dead in refl)

  failure-Touched :
      (error : String)
      → Touched (r.id ∷ []) db (set_outbox r.id (mark_delivery_failure now jitter error) db)
  failure-Touched error =
      set_outbox-Touched r.id (mark_delivery_failure now jitter error) db
        (λ x. unfold mark_delivery_failure in ground arith)

  settle-Touched : (a : Attempt) → Touched (r.id ∷ []) db (settle ch now jitter r a db).1
  unfolding settle
  settle-Touched (failure error) = failure-Touched error
  settle-Touched (sent note) =
      rw (outbox-renotify now r (get_row_rule db r) (set_outbox r.id (mark_delivered now note) db))
        (set_outbox-Touched r.id (mark_delivered now note) db (λ x. unfold mark_delivered in refl))

  configured-Touched :
      (channel : Channel) → Touched (r.id ∷ []) db (configured ch now jitter r channel db).1
  configured-Touched channel = by_config (ch.config channel.type channel.config_encrypted)
    where
      by_config : (c : Config) → Touched (r.id ∷ []) db (on_config ch now jitter r channel c db).1
      by_config (invalid error) = dead-Touched _
      by_config (failing error) = failure-Touched error
      by_config usable = settle-Touched (attempt ch db channel r)

  deliver-Touched : Touched (r.id ∷ []) db (deliver ch now jitter r db).1
  unfolding deliver
  deliver-Touched =
      by_refusal (refusal ch (get_channel db r.channel_id)) (get_channel db r.channel_id)
    where
      by_refusal :
          (o : Option String) (c : Option Channel)
          → Touched (r.id ∷ []) db (refuse_or ch now jitter r o (to_channel ch now jitter r c) db).1
      by_refusal (some reason) c = dead-Touched reason
      by_refusal none none = All2-refl _ db.outbox (Touches-same _)
      by_refusal none (some channel) = configured-Touched channel

Touched-weaken :
    (ids more : List ℕ) (db db' : Db)
    → ((n : ℕ) → elem n more ≡ false → elem n ids ≡ false)
    → Touched ids db db'
    → Touched more db db'
Touched-weaken ids more db db' f =
    All2-weaken _ _ db.outbox db'.outbox
      λ x y t. record { id = t.id; other = λ h. t.other (f x.id h) }

deliver_one-Touched :
    (turn : Turn) (id : ℕ) (db : Db) → Touched (id ∷ []) db (deliver_one turn id db)
deliver_one-Touched turn id db = unfold deliver_one in by_row (get_outbox db id) refl
  where
    by_result :
        (rid : ℕ) (res : Result (Unit {0}) × Db)
        → Touched (rid ∷ []) db res.1
        → Touched (rid ∷ []) db (or_rollback db res)
    by_result rid (ok done, db') t = t
    by_result rid (err e, db') t = All2-refl _ db.outbox (Touches-same _)

    by_row :
        (o : Option NotificationOutbox)
        → get_outbox db id ≡ o
        → Touched (id ∷ []) db (deliver_found turn o db)
    by_row none e = All2-refl _ db.outbox (Touches-same _)
    by_row (some r) e =
        let same : r.id ≡ id = (==_iff r.id id).0 (find-passes (λ x. x.id == id) db.outbox r e) in
        subst (λ n. Touched (n ∷ []) db (deliver_found turn (some r) db)) same
          (by_result r.id (deliver turn.channels turn.now turn.jitter r db)
            (deliver-Touched turn.channels turn.now turn.jitter r db))

deliver_all-Touched :
    (turns : ℕ → Turn) (ids : List ℕ) (db : Db) → Touched ids db (deliver_all turns ids db)
unfolding deliver_all
deliver_all-Touched turns [] db = All2-refl _ db.outbox (Touches-same _)
deliver_all-Touched turns (id ∷ ids) db =
    let db1 = deliver_one (turns id) id db in
    let db2 = deliver_all turns ids db1 in
    Touched-trans (id ∷ ids) db db1 db2
      (Touched-weaken (id ∷ []) (id ∷ ids) db db1 (λ n h. ground arith)
        (deliver_one-Touched (turns id) id db))
      (Touched-weaken ids (id ∷ ids) db1 db2 (λ n h. ground arith)
        (deliver_all-Touched turns ids db1))

claim-Touched :
    (worker : String) (now limit : ℕ) (db : Db)
    → Touched (due_ids db now limit) db (claim_batch worker now limit db).1
unfolding claim_batch
claim-Touched worker now limit db =
    let ids = due_ids db now limit in
    All2-update_where _ _ (claimed_by worker now) db.outbox λ r. elim (Bool-cases (elem r.id ids)) [
      | inl e ↦ rw e (record { id = refl; other = λ h. ground arith })
      | inr e ↦ rw e (Touches-same ids r)
    ]

-- If the ids of the outbox rows are distinct, then in one tick of the worker every outbox row keeps its id, and a row that is not both pending and due
-- is left exactly as it was, whatever the channels answer; no row is added or removed.
pub run_tick-leaves_idle :
    (turns : ℕ → Turn) (worker : String) (now limit : ℕ) (db : Db)
    → UniqueIds db
    → All2
        (λ r r'. (r'.id ≡ r.id) × ((is_due now r ≡ true) ⊎ (r' ≡ r)))
        db.outbox
        (run_tick turns worker now limit db).1.outbox
unfolding run_tick
run_tick-leaves_idle turns worker now limit db u =
    let db1 = (claim_batch worker now limit db).1 in
    let ids = due_ids db now limit in
    let db2 = deliver_all turns ids db1 in
    All2-with _ (Touches ids) _ db.outbox db2.outbox
      (λ x y idle t. (
        t.id,
        elim (Bool-cases (is_due now x)) [ inl due ↦ inl due | inr no_ ↦ inr (t.other (idle no_)) ],
      ))
      (idle-not_claimed db now limit u)
      (Touched-trans ids db db1 db2 (claim-Touched worker now limit db)
        (deliver_all-Touched turns ids db1))
