-- ===== src/Feed.antt =====
-- backend/app/services/events_hub.py: the queues of the subscribers of the live feed.
pub mod Bounded
pub mod Latest
use k8s_alert_manager.Prelude.{
  ℕ, suc, ◌==◌, String, Bool, true, false, not, ◌&&◌, ◌||◌, Option, none, some, List, [], ◌∷◌, ◌++◌,
  map, filter, length, leb, elem, update_where, if◌then◌else◌,
}

-- The keys of an event's dict.
pub record HubEvent : Type 0 where
  pub type_ : String
  pub event_id : ℕ
  pub team_id : Option ℕ
  pub cluster : String
  pub namespace : Option String
  pub alertname : String
  pub severity : Option String
  pub is_test : Bool
  pub ts : String

pub record QueueItem : Type 0 where
  pub seq : ℕ
  pub event : HubEvent

abbrev pub queue_maxsize : ℕ
queue_maxsize = 256

pub record Subscriber : Type 0 where
  pub id : ℕ
  pub queue : List QueueItem
  pub team_ids : List ℕ
  pub is_admin : Bool

-- The subscribers in the order of the dict, which is the order of their insertion.
pub record Hub : Type 0 where
  pub subscribers : List Subscriber
  pub next_subscriber_id : ℕ
  pub next_seq : ℕ

abbrev pub new_hub : Hub
new_hub = record { subscribers = []; next_subscriber_id = 0; next_seq = 0 }

unfoldable pub subscribe : List ℕ → Bool → Hub → ℕ × Hub
subscribe team_ids is_admin hub = (
  hub.next_subscriber_id,
  record hub {
    subscribers =
        hub.subscribers
        ++ record {
          id = hub.next_subscriber_id;
          queue = [];
          team_ids = team_ids;
          is_admin = is_admin;
        }
          ∷ [];
    next_subscriber_id = suc hub.next_subscriber_id;
  },
)

unfoldable pub unsubscribe : ℕ → Hub → Hub
unsubscribe id hub = record hub { subscribers = filter (λ s. not (s.id == id)) hub.subscribers }

-- QueueFull is none.
abbrev pub put_nowait : QueueItem → List QueueItem → Option (List QueueItem)
put_nowait item queue = if leb queue_maxsize (length queue) then none else some (queue ++ item ∷ [])

-- QueueEmpty is none.
abbrev pub get_nowait : List QueueItem → Option (QueueItem × List QueueItem)
get_nowait [] = none
get_nowait (item ∷ queue) = some (item, queue)

abbrev pub rest_of : List QueueItem → Option (QueueItem × List QueueItem) → List QueueItem
rest_of queue none = queue
rest_of queue (some (item, rest)) = rest

abbrev pub or_else : List QueueItem → Option (List QueueItem) → List QueueItem
or_else queue none = queue
or_else queue (some queue') = queue'

-- The second attempt, behind the drop of the oldest item; when it fails the new item is dropped too.
abbrev pub retry : QueueItem → List QueueItem → List QueueItem
retry item queue =
    let left = rest_of queue (get_nowait queue) in or_else left (put_nowait item left)

unfoldable pub deliver_item : QueueItem → List QueueItem → List QueueItem
deliver_item item queue = elim (put_nowait item queue) [
  | none ↦ retry item queue
  | some queue' ↦ queue'
]

abbrev pub covers_team : List ℕ → Option ℕ → Bool
covers_team team_ids none = false
covers_team team_ids (some team_id) = elem team_id team_ids

-- not (not is_admin and (team_id is None or team_id not in team_ids))
abbrev pub covers : Subscriber → HubEvent → Bool
covers s event = s.is_admin || covers_team s.team_ids event.team_id

abbrev pub offer : QueueItem → Subscriber → Subscriber
offer item s = if covers s item.event then record s { queue = deliver_item item s.queue } else s

unfoldable pub publish : HubEvent → Hub → Hub
unfolding deliver_item
publish event hub =
    let seq = suc hub.next_seq in
    record hub {
      subscribers = map (offer (record { seq = seq; event = event })) hub.subscribers;
      next_seq = seq;
    }

-- The endpoint takes the oldest item of its own queue, if there is one.
abbrev pub taken : Subscriber → Subscriber
taken s = record s { queue = rest_of s.queue (get_nowait s.queue) }

unfoldable pub take_next : ℕ → Hub → Hub
take_next id hub = record hub { subscribers = update_where (λ s. s.id == id) taken hub.subscribers }

-- What requests do to the hub.
pub data Call : Type 0 where
  subscribes : List ℕ → Bool → Call
  unsubscribes : ℕ → Call
  publishes : HubEvent → Call
  takes_next : ℕ → Call

abbrev pub call : Call → Hub → Hub
call (subscribes team_ids is_admin) hub = (subscribe team_ids is_admin hub).1
call (unsubscribes id) hub = unsubscribe id hub
call (publishes event) hub = publish event hub
call (takes_next id) hub = take_next id hub

abbrev pub calls : List Call → Hub → Hub
calls [] hub = hub
calls (c ∷ cs) hub = calls cs (call c hub)
