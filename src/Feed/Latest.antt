-- ===== src/Feed/Latest.antt =====
-- What a subscriber of backend/app/services/events_hub.py finds in its queue after a publication.
use k8s_alert_manager.Prelude.{
  ℕ, suc, ◌≤◌, ◌<◌, ◌≡◌, refl, sym, ap, List, [], ◌∷◌, ◌++◌, length, leb, map, All, Bool-cases, inl,
  inr, if◌then◌else◌, arith,
}
use k8s_alert_manager.Feed.{
  HubEvent, QueueItem, queue_maxsize, Subscriber, Hub, deliver_item, covers, offer, publish,
}
use k8s_alert_manager.Feed.Bounded.{
  IsSound, AllSound, length-append, deliver_item-fits, deliver_item-full,
}

-- The last `n` items.
abbrev pub latest : ℕ → List QueueItem → List QueueItem
latest n [] = []
latest n (x ∷ xs) = let rest = latest n xs in if leb (length (x ∷ xs)) n then x ∷ xs else rest

latest_all : (n : ℕ) (xs : List QueueItem) → length xs ≤ n → latest n xs ≡ xs
latest_all n [] h = refl
latest_all n (x ∷ xs) h = ground (arith, h)

latest_rest : (n : ℕ) (x : QueueItem) (xs : List QueueItem) → length xs ≡ n → latest n (x ∷ xs) ≡ xs
latest_rest n x xs h = ground (arith, h, latest_all n xs)

deliver_item-latest :
    (item : QueueItem) (q : List QueueItem)
    → length q ≤ queue_maxsize
    → deliver_item item q ≡ latest queue_maxsize (q ++ item ∷ [])
deliver_item-latest item [] h = unfold deliver_item in refl
deliver_item-latest item (x ∷ q) h = elim (Bool-cases (leb queue_maxsize (length (x ∷ q)))) [
  | inl full ↦
      let size : length (x ∷ q) ≡ queue_maxsize = ground (arith, h, full) in
      let longer = length-append q item in
      rw (deliver_item-full item x q size)
        (sym (latest_rest queue_maxsize x (q ++ item ∷ []) (omega (arith, size, longer))))
  | inr fits ↦
      let short : length (x ∷ q) < queue_maxsize = ground (arith, fits) in
      let longer = length-append (x ∷ q) item in
      rw (deliver_item-fits item (x ∷ q) short)
        (sym (latest_all queue_maxsize (x ∷ q ++ item ∷ []) (omega (arith, short, longer))))
]

-- The queue of a subscriber that the event reaches becomes the latest items, the new one included;
-- that of any other subscriber stays.
abbrev pub reached : QueueItem → Subscriber → Subscriber
reached item s =
    if covers s item.event
    then record s { queue = latest queue_maxsize (s.queue ++ item ∷ []) }
    else s

offer-reached :
    (hub : Hub) (item : QueueItem) (xs : List Subscriber)
    → All (IsSound hub) xs
    → map (offer item) xs ≡ map (reached item) xs
offer-reached hub item [] h = refl
offer-reached hub item (s ∷ xs) h =
    let same = deliver_item-latest item s.queue h.0.bounded in
    rw (same, offer-reached hub item xs h.1) refl

-- In a hub whose queues are sound, a publication draws the next sequence number and appends the event
-- to the queue of each subscriber whose scope covers it, which keeps its latest 256 items; the other
-- subscribers' queues stay as they are.
pub publish-latest :
    (event : HubEvent) (hub : Hub)
    → AllSound hub
    → publish event hub ≡ record hub {
      subscribers =
          map (reached (record { seq = suc hub.next_seq; event = event })) hub.subscribers;
      next_seq = suc hub.next_seq;
    }
unfolding publish
publish-latest event hub h =
    ap (λ xs. record hub { subscribers = xs; next_seq = suc hub.next_seq })
      (offer-reached hub (record { seq = suc hub.next_seq; event = event }) hub.subscribers h)
