-- ===== src/Jobs/Bus.antt =====
-- internal/jobs/bus.go: the event bus. A subscription is its id with the buffer of its channel; the
-- lock makes each operation one step.
pub mod Delivery
use aiofiles.Prelude.{
  ℕ, suc, ◌+◌, ◌≤◌, ◌<◌, ◌≡◌, refl, Option, none, some, List, [], ◌∷◌, ◌++◌, ite, ltb,
  if◌then◌else◌, length, length-append, arith, ℕ_discrete, Bool, true, false, not, ◌==◌,
}
use aiofiles.Jobs.Types.{Event}

-- `make(chan Event, 64)`
abbrev pub channel_size : ℕ
channel_size = 64

pub record Subscription : Type 0 where
  pub id : ℕ
  pub buffer : List Event

pub record Bus : Type 0 where
  pub next : ℕ
  pub subs : List Subscription

abbrev pub new_bus : Bus
new_bus = record { next = 0; subs = [] }

unfoldable pub subscribe : Bus → ℕ × Bus
subscribe b =
    (b.next, record { next = suc b.next; subs = record { id = b.next; buffer = [] } ∷ b.subs })

drop_sub : ℕ → List Subscription → List Subscription
drop_sub id [] = []
drop_sub id (s ∷ l) = if s.id == id then drop_sub id l else s ∷ drop_sub id l

-- The function that `Subscribe` returns; a second call finds nothing to delete.
unfoldable pub unsubscribe : ℕ → Bus → Bus
unfolding drop_sub
unsubscribe id b = record b { subs = drop_sub id b.subs }

-- A full buffer drops the event.
abbrev pub offer : Event → List Event → List Event
offer e buffer = if ltb (length buffer) channel_size then buffer ++ e ∷ [] else buffer

offer_all : Event → List Subscription → List Subscription
offer_all e [] = []
offer_all e (s ∷ l) = record s { buffer = offer e s.buffer } ∷ offer_all e l

unfoldable pub publish : Event → Bus → Bus
unfolding offer_all
publish e b = record b { subs = offer_all e b.subs }

unfoldable pub subscribers : Bus → ℕ
subscribers b = length b.subs

find_buffer : ℕ → List Subscription → Option (List Event)
find_buffer id [] = none
find_buffer id (s ∷ l) = if s.id == id then some s.buffer else find_buffer id l

-- What waits in the channel of a subscription.
unfoldable pub waiting : ℕ → Bus → Option (List Event)
unfolding find_buffer
waiting id b = find_buffer id b.subs

abbrev pub rest_of : List Event → List Event
rest_of [] = []
rest_of (e ∷ l) = l

take_from : ℕ → List Subscription → List Subscription
take_from id [] = []
take_from id (s ∷ l) =
    (if s.id == id then record s { buffer = rest_of s.buffer } else s) ∷ take_from id l

-- `ev := <-events` of a subscriber takes the oldest event that waits.
unfoldable pub receive : ℕ → Bus → Bus
unfolding take_from
receive id b = record b { subs = take_from id b.subs }

-- Ids fall along the list and stay below `next`; no buffer is over its size.
abbrev pub Below : ℕ → List Subscription → Type 0
Below n [] = Unit {0}
Below n (s ∷ l) = (s.id < n) × (length s.buffer ≤ channel_size) × Below s.id l

abbrev pub IsValid : Bus → Type 0
IsValid b = Below b.next b.subs
