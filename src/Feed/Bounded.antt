-- ===== src/Feed/Bounded.antt =====
-- The queues of backend/app/services/events_hub.py stay bounded and in the order of publication.
use k8s_alert_manager.Prelude.{
  ℕ, suc, ◌≤◌, ◌<◌, ◌≡◌, refl, Bool, not, ◌==◌, List, [], ◌∷◌, ◌++◌, filter, length, leb, All,
  All-append, All-map, All-update_where, Bool-cases, inl, inr, arith, map,
}
use k8s_alert_manager.Feed.{
  HubEvent, QueueItem, queue_maxsize, Subscriber, Hub, new_hub, subscribe, unsubscribe, rest_of,
  get_nowait, deliver_item, covers, offer, publish, taken, take_next, Call, subscribes,
  unsubscribes, publishes, takes_next, call, calls,
}

-- Strictly ascending sequence numbers up to `top`.
abbrev pub Ascends : ℕ → List QueueItem → Type 0
Ascends top [] = Unit
Ascends top (x ∷ xs) = (x.seq ≤ top) × All (λ y. x.seq < y.seq) xs × Ascends top xs

-- The queue of a subscriber fits and ascends, and the subscriber's id was given out.
pub record IsSound (hub : Hub) (s : Subscriber) : Type 0 where
  pub bounded : length s.queue ≤ queue_maxsize
  pub ordered : Ascends hub.next_seq s.queue
  pub known : s.id < hub.next_subscriber_id

pub length-append : (xs : List QueueItem) (x : QueueItem) → length (xs ++ x ∷ []) ≡ suc (length xs)
length-append [] x = refl
length-append (y ∷ ys) x = omega (arith, length-append ys x)

Ascends-below :
    (top n : ℕ) (xs : List QueueItem) → top < n → Ascends top xs → All (λ y. y.seq < n) xs
Ascends-below top n [] h a = tt
Ascends-below top n (x ∷ xs) h a = (omega (arith, h, a.0), Ascends-below top n xs h a.2)

Ascends-append :
    (top : ℕ) (e : HubEvent) (xs : List QueueItem)
    → Ascends top xs
    → Ascends (suc top) (xs ++ record { seq = suc top; event = e } ∷ [])
Ascends-append top e [] a = (omega arith, tt, tt)
Ascends-append top e (x ∷ xs) a = (
  omega (arith, a.0),
  All-append (λ y. x.seq < y.seq) xs _ a.1 (omega (arith, a.0), tt),
  Ascends-append top e xs a.2,
)

Ascends-suc : (top : ℕ) (xs : List QueueItem) → Ascends top xs → Ascends (suc top) xs
Ascends-suc top [] a = tt
Ascends-suc top (x ∷ xs) a = (omega (arith, a.0), a.1, Ascends-suc top xs a.2)

-- Delivery appends the item, behind the drop of the oldest one if the queue is full.
pub deliver_item-fits :
    (item : QueueItem) (q : List QueueItem)
    → length q < queue_maxsize
    → deliver_item item q ≡ q ++ item ∷ []
unfolding deliver_item
deliver_item-fits item q h = ground (arith, h)

pub deliver_item-full :
    (item x : QueueItem) (q : List QueueItem)
    → length (x ∷ q) ≡ queue_maxsize
    → deliver_item item (x ∷ q) ≡ q ++ item ∷ []
unfolding deliver_item
deliver_item-full item x q h = ground (arith, h)

deliver_item-IsSound :
    (top : ℕ) (e : HubEvent) (q : List QueueItem)
    → length q ≤ queue_maxsize
    → Ascends top q
    → let q' = deliver_item (record { seq = suc top; event = e }) q in
      (length q' ≤ queue_maxsize) × Ascends (suc top) q'
deliver_item-IsSound top e [] h a =
    rw (deliver_item-fits (record { seq = suc top; event = e }) [] (omega arith))
      (omega arith, (omega arith, tt, tt))
deliver_item-IsSound top e (x ∷ q) h a =
    let item : QueueItem = record { seq = suc top; event = e } in
    elim (Bool-cases (leb queue_maxsize (length (x ∷ q)))) [
      | inl full ↦
          let longer = length-append q item in
          rw (deliver_item-full item x q (ground (arith, h, full)))
            (omega (arith, h, longer), Ascends-append top e q a.2)
      | inr fits ↦
          let longer = length-append (x ∷ q) item in
          let short : length (x ∷ q) < queue_maxsize = ground (arith, fits) in
          rw (deliver_item-fits item (x ∷ q) short)
            (omega (arith, short, longer), Ascends-append top e (x ∷ q) a)
    ]

abbrev pub AllSound : Hub → Type 0
AllSound hub = All (IsSound hub) hub.subscribers

offer-IsSound :
    (e : HubEvent) (hub : Hub) (s : Subscriber)
    → IsSound hub s
    → IsSound (publish e hub) (offer (record { seq = suc hub.next_seq; event = e }) s)
unfolding publish
offer-IsSound e hub s h = elim (Bool-cases (covers s e)) [
  | inl on ↦
      let kept = deliver_item-IsSound hub.next_seq e s.queue h.bounded h.ordered in
      rw on (record { bounded = kept.0; ordered = kept.1; known = h.known })
  | inr off ↦ rw off (record {
    bounded = h.bounded;
    ordered = Ascends-suc hub.next_seq s.queue h.ordered;
    known = h.known;
  })
]

All-offered :
    (P Q : Subscriber → Type 0) (f : Subscriber → Subscriber) (xs : List Subscriber)
    → ((s : Subscriber) → P s → Q (f s))
    → All P xs
    → All Q (map f xs)
All-offered P Q f [] k h = tt
All-offered P Q f (s ∷ xs) k h = (k s h.0, All-offered P Q f xs k h.1)

All-kept :
    (P : Subscriber → Type 0) (p : Subscriber → Bool) (xs : List Subscriber)
    → All P xs
    → All P (filter p xs)
All-kept P p [] h = tt
All-kept P p (s ∷ xs) h = elim (Bool-cases (p s)) [
  | inl on ↦ rw on (h.0, All-kept P p xs h.1)
  | inr off ↦ rw off (All-kept P p xs h.1)
]

taken-IsSound : (hub : Hub) (s : Subscriber) → IsSound hub s → IsSound hub (taken s)
taken-IsSound hub s h = by_queue s.queue h.bounded h.ordered
  where
    by_queue :
        (q : List QueueItem)
        → length q ≤ queue_maxsize
        → Ascends hub.next_seq q
        → IsSound hub (record s { queue = rest_of q (get_nowait q) })
    by_queue [] b a = record { bounded = b; ordered = a; known = h.known }
    by_queue (x ∷ q) b a = record { bounded = omega (arith, b); ordered = a.2; known = h.known }

call-AllSound : (c : Call) (hub : Hub) → AllSound hub → AllSound (call c hub)
unfolding subscribe unsubscribe publish take_next
call-AllSound (subscribes team_ids is_admin) hub h =
    All-append (IsSound (call (subscribes team_ids is_admin) hub)) hub.subscribers _
      (All-map (IsSound hub) _ hub.subscribers
        (λ s k. record { bounded = k.bounded; ordered = k.ordered; known = omega (arith, k.known) })
        h)
      (record { bounded = omega arith; ordered = tt; known = omega arith }, tt)
call-AllSound (unsubscribes id) hub h =
    All-map (IsSound hub) (IsSound (unsubscribe id hub)) _
      (λ s k. record { bounded = k.bounded; ordered = k.ordered; known = k.known })
      (All-kept (IsSound hub) (λ s. not (s.id == id)) hub.subscribers h)
call-AllSound (publishes e) hub h =
    All-offered (IsSound hub) (IsSound (publish e hub)) _ hub.subscribers (offer-IsSound e hub) h
call-AllSound (takes_next id) hub h =
    All-update_where (IsSound hub) (IsSound (take_next id hub)) (λ s. s.id == id) taken
      hub.subscribers
      (λ s k. elim (Bool-cases (s.id == id)) [
        | inl on ↦
            let t = taken-IsSound hub s k in
            rw on (record { bounded = t.bounded; ordered = t.ordered; known = t.known })
        | inr off ↦ rw off (record { bounded = k.bounded; ordered = k.ordered; known = k.known })
      ])
      h

-- After any sequence of calls on a new hub, each subscriber's queue holds at most 256 items, in
-- strictly ascending order of sequence numbers up to the hub's last one, and its id is below the next
-- one that is given out.
pub calls-AllSound : (cs : List Call) → AllSound (calls cs new_hub)
calls-AllSound cs = from cs new_hub tt
  where
    from : (cs : List Call) (hub : Hub) → AllSound hub → AllSound (calls cs hub)
    from [] hub h = h
    from (c ∷ cs) hub h = from cs (call c hub) (call-AllSound c hub h)
