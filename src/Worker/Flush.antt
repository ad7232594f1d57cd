-- ===== src/Worker/Flush.antt =====
-- The digest flush of backend/app/worker/scheduler.py: what becomes of the parked rows of a channel.
use k8s_alert_manager.Prelude.{
  ℕ, suc, ◌≤◌, min, ◌≡◌, refl, sym, ap, ◌∙◌, ◌⊎◌, inl, inr, Bool, true, false, List, [], ◌∷◌, ◌++◌,
  count, filter, length, leb, update_where, All, count-eq-length-filter, if◌then◌else◌, Bool-cases,
  arith,
}
use k8s_alert_manager.Models.Channel.{Channel}
use k8s_alert_manager.Models.Outbox.{
  NotificationOutbox, Payload, Payloads, nil, cons, notification, pending,
}
use k8s_alert_manager.Models.Db.{Db}
use k8s_alert_manager.Worker.Digest.{
  is_parked, insert_by_created, order_by_created, parked_rows, payloads_of, min_created,
  aggregate_row, restored, linked_to, digest_payload, flush_rows,
}

pub Holds : Payload → Payloads → Type 0
Holds p nil = ⊥
Holds p (cons q rest) = (p ≡ q) ⊎ Holds p rest

-- The payload is a digest of the rows: it counts them, holds the payload of each and starts no later
-- than any of them.
pub Digests : Payload → List NotificationOutbox → Type 0
Digests (Payload.digest ps n since) rows =
    (n ≡ length rows) × All (λ r. Holds r.payload ps × (since ≤ r.created_at)) rows
Digests p rows = ⊥

module _ (P : NotificationOutbox → Type 0) where
  All-of_insert :
      (r : NotificationOutbox) (rs : List NotificationOutbox)
      → All P (insert_by_created r rs)
      → P r × All P rs
  unfolding insert_by_created
  All-of_insert r [] h = h
  All-of_insert r (x ∷ xs) h = elim (Bool-cases (leb r.created_at x.created_at)) [
    | inl e ↦ rw e at h
    | inr e ↦
        let h' : P x × All P (insert_by_created r xs) = rw e at h in
        let (pr, pxs) = All-of_insert r xs h'.1 in (pr, (h'.0, pxs))
  ]

  All-of_order : (rs : List NotificationOutbox) → All P (order_by_created rs) → All P rs
  unfolding order_by_created
  All-of_order [] h = tt
  All-of_order (r ∷ rs) h =
      let (pr, prs) = All-of_insert r (order_by_created rs) h in (pr, All-of_order rs prs)

length-insert :
    (r : NotificationOutbox) (rs : List NotificationOutbox)
    → length (insert_by_created r rs) ≡ suc (length rs)
unfolding insert_by_created
length-insert r [] = refl
length-insert r (x ∷ xs) = ground (arith, length-insert r xs)

length-order : (rs : List NotificationOutbox) → length (order_by_created rs) ≡ length rs
unfolding order_by_created
length-order [] = refl
length-order (r ∷ rs) = ground (arith, length-insert r (order_by_created rs), length-order rs)

min_created-le :
    (t : ℕ) (rs : List NotificationOutbox)
    → (min_created t rs ≤ t) × All (λ r. min_created t rs ≤ r.created_at) rs
unfolding min_created
min_created-le t [] = (omega arith, tt)
min_created-le t (r ∷ rs) =
    let (here, there) = min_created-le (min t r.created_at) rs in
    (omega (arith, here), (omega (arith, here), there))

All-held :
    (ps : Payloads) (rs : List NotificationOutbox)
    → ((p : Payload) → Holds p (payloads_of rs) → Holds p ps)
    → All (λ r. Holds r.payload ps) rs
unfolding payloads_of Holds
All-held ps [] h = tt
All-held ps (r ∷ rs) h = (h r.payload (inl refl), All-held ps rs (λ p k. h p (inr k)))

All-both :
    (P Q : NotificationOutbox → Type 0) (rs : List NotificationOutbox)
    → All P rs
    → All Q rs
    → All (λ r. P r × Q r) rs
All-both P Q [] p q = tt
All-both P Q (r ∷ rs) p q = ((p.0, q.0), All-both P Q rs p.1 q.1)

digest_payload-Digests :
    (r : NotificationOutbox) (rs : List NotificationOutbox)
    → Digests (digest_payload (r ∷ rs) (min_created r.created_at rs)) (r ∷ rs)
unfolding Digests
digest_payload-Digests r rs =
    let (here, there) = min_created-le r.created_at rs in
    (refl, All-both _ _ (r ∷ rs) (All-held _ (r ∷ rs) (λ p k. k)) (here, there))

Digests-of_order :
    (p : Payload) (rows : List NotificationOutbox)
    → Digests p (order_by_created rows)
    → Digests p rows
unfolding Digests
Digests-of_order (Payload.digest ps n since) rows (c, h) =
    (c ∙ length-order rows, All-of_order _ rows h)
Digests-of_order (notification n) rows h = absurd h
Digests-of_order (Payload.report m s) rows h = absurd h

-- A pending aggregate row of the channel that digests the rows.
pub record IsAggregate (channel : Channel) (rows : List NotificationOutbox) (g : NotificationOutbox)
    : Type 0 where
  pub status : g.status ≡ pending
  pub is_digest : g.is_digest ≡ true
  pub channel_id : g.channel_id ≡ channel.id
  pub digests : Digests g.payload rows

module _ (now : ℕ) (channel : Channel) (db : Db) where
  abbrev flushed : Db
  flushed = flush_rows now channel (parked_rows channel.id db) db

  abbrev waiting : List NotificationOutbox
  waiting = filter (is_parked channel.id) db.outbox

  update_where-append :
      (p : NotificationOutbox → Bool) (f : NotificationOutbox → NotificationOutbox)
      (rs : List NotificationOutbox) (g : NotificationOutbox)
      → p g ≡ false
      → update_where p f (rs ++ g ∷ []) ≡ update_where p f rs ++ g ∷ []
  update_where-append p f [] g h = rw h refl
  update_where-append p f (r ∷ rs) g h =
      ap (λ l. (if p r then f r else r) ∷ l) (update_where-append p f rs g h)

  -- Two or more parked rows of a channel become one digest: the outbox gains exactly one row, pending,
  -- for the channel, whose payload counts the parked rows, holds the payload of every one of them and
  -- starts no later than the first of them; the parked rows are linked to it, and no other row changes.
  pub flush_rows-IsAggregate :
      2 ≤ count (is_parked channel.id) db.outbox
      → (g : NotificationOutbox) × (flushed.outbox
          ≡ update_where (is_parked channel.id) (linked_to g.id) db.outbox ++ g ∷ [])
        × IsAggregate channel waiting g
  unfolding flush_rows parked_rows
  flush_rows-IsAggregate h = by_rows (order_by_created waiting) refl (
      ground
        (arith, h, length-order waiting, count-eq-length-filter (is_parked channel.id) db.outbox))
    where
      by_rows :
          (rows : List NotificationOutbox)
          → order_by_created waiting ≡ rows
          → 2 ≤ length rows
          → (g : NotificationOutbox) × ((flush_rows now channel rows db).outbox
              ≡ update_where (is_parked channel.id) (linked_to g.id) db.outbox ++ g ∷ [])
            × IsAggregate channel waiting g
      by_rows [] e k = absurd (omega arith)
      by_rows (r ∷ []) e k = absurd (omega arith)
      by_rows (r ∷ s ∷ rs) e k =
          let payload = digest_payload (r ∷ s ∷ rs) (min_created r.created_at (s ∷ rs)) in
          let g = aggregate_row db.next_outbox_id now channel payload in
          let all : Digests payload (order_by_created waiting) =
            rw e (digest_payload-Digests r (s ∷ rs)) in
          (
            g,
            update_where-append (is_parked channel.id) (linked_to g.id) db.outbox g
                (unfold is_parked in ground arith),
            record {
              status = refl;
              is_digest = refl;
              channel_id = refl;
              digests = Digests-of_order payload waiting all;
            },
          )

none_parked :
    (id : ℕ) (f : NotificationOutbox → NotificationOutbox) (rs : List NotificationOutbox)
    → ((r : NotificationOutbox) → is_parked id (f r) ≡ false)
    → count (is_parked id) (update_where (is_parked id) f rs) ≡ 0
none_parked id f [] h = refl
none_parked id f (r ∷ rs) h = elim (Bool-cases (is_parked id r)) [
  | inl e ↦ rw e (ground (arith, h r, none_parked id f rs h))
  | inr e ↦ rw e (ground (arith, e, none_parked id f rs h))
]

-- A flush of the rows of one channel leaves none of them parked.
pub flush_rows-none_parked :
    (now : ℕ) (channel : Channel) (db : Db)
    → count (is_parked channel.id) (flush_rows now channel (parked_rows channel.id db) db).outbox
      ≡ 0
unfolding flush_rows parked_rows
flush_rows-none_parked now channel db =
    by_rows (order_by_created rows)
      (count-eq-length-filter (is_parked channel.id) db.outbox ∙ sym (length-order rows))
  where
    rows : List NotificationOutbox
    rows = filter (is_parked channel.id) db.outbox

    by_rows :
        (parked : List NotificationOutbox)
        → count (is_parked channel.id) db.outbox ≡ length parked
        → count (is_parked channel.id) (flush_rows now channel parked db).outbox ≡ 0
    by_rows [] e = e
    by_rows (r ∷ []) e =
        none_parked channel.id restored db.outbox (λ x. unfold is_parked in ground arith)
    by_rows (r ∷ s ∷ rs) e =
        none_parked channel.id (linked_to db.next_outbox_id) _
          (λ x. unfold is_parked in ground arith)
