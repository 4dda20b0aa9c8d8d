-- ===== src/Jobs/Bus/Delivery.antt =====
-- What the operations of the bus do to the channels of its subscribers.
use aiofiles.Prelude.{ℕ, ◌≤◌, ◌≡◌, refl, List, [], ◌∷◌, length, length-append, arith}
use mathlib.Core.Option
use aiofiles.Jobs.Types.{Event}
use aiofiles.Jobs.Bus.{
  Bus, Subscription, channel_size, new_bus, subscribe, drop_sub, unsubscribe, offer, offer_all,
  publish, find_buffer, waiting, rest_of, take_from, receive, Below, IsValid,
}

length-offer-le :
    (e : Event) (buffer : List Event)
    → length buffer ≤ channel_size
    → length (offer e buffer) ≤ channel_size
length-offer-le e buffer h = ground (arith, length-append buffer (e ∷ []))

offer_all-Below : (e : Event) (n : ℕ) (l : List Subscription) → Below n l → Below n (offer_all e l)
unfolding offer_all
offer_all-Below e n [] v = tt
offer_all-Below e n (s ∷ l) v = (v.0, length-offer-le e s.buffer v.1, offer_all-Below e s.id l v.2)

Below-mono : (m n : ℕ) (l : List Subscription) → m ≤ n → Below m l → Below n l
Below-mono m n [] h v = tt
Below-mono m n (s ∷ l) h v = (omega arith, v.1, v.2)

drop_sub-Below : (id n : ℕ) (l : List Subscription) → Below n l → Below n (drop_sub id l)
unfolding drop_sub
drop_sub-Below id n [] v = tt
drop_sub-Below id n (s ∷ l) v =
    ground (arith, drop_sub-Below id s.id l v.2, Below-mono s.id n (drop_sub id l))

length-rest_of-le : (l : List Event) → length (rest_of l) ≤ length l
length-rest_of-le [] = omega arith
length-rest_of-le (e ∷ l) = omega arith

take_from-Below : (id n : ℕ) (l : List Subscription) → Below n l → Below n (take_from id l)
unfolding take_from
take_from-Below id n [] v = tt
take_from-Below id n (s ∷ l) v =
    ground (arith, length-rest_of-le s.buffer, take_from-Below id s.id l v.2)

pub data Operation : Type 0 where
  subscribes : Operation
  unsubscribes receives : ℕ → Operation
  publishes : Event → Operation

abbrev pub step : Bus → Operation → Bus
step b subscribes = (subscribe b).1
step b (unsubscribes id) = unsubscribe id b
step b (receives id) = receive id b
step b (publishes e) = publish e b

abbrev pub run : Bus → List Operation → Bus
run b [] = b
run b (o ∷ os) = run (step b o) os

step-IsValid : (b : Bus) (o : Operation) → IsValid b → IsValid (step b o)
unfolding subscribe unsubscribe receive publish
step-IsValid b subscribes v = (omega arith, omega arith, v)
step-IsValid b (unsubscribes id) v = drop_sub-Below id b.next b.subs v
step-IsValid b (receives id) v = take_from-Below id b.next b.subs v
step-IsValid b (publishes e) v = offer_all-Below e b.next b.subs v

run_from-IsValid : (b : Bus) (os : List Operation) → IsValid b → IsValid (run b os)
run_from-IsValid b [] v = v
run_from-IsValid b (o ∷ os) v = run_from-IsValid (step b o) os (step-IsValid b o v)

-- After any sequence of operations on a new bus, the ids of the subscriptions are distinct and
-- below the next id, and no channel holds more events than its size.
pub run-IsValid : (os : List Operation) → IsValid (run new_bus os)
run-IsValid os = run_from-IsValid new_bus os tt

find_buffer-offer_all :
    (id : ℕ) (e : Event) (l : List Subscription)
    → find_buffer id (offer_all e l) ≡ Option.map (offer e) (find_buffer id l)
unfolding find_buffer offer_all
find_buffer-offer_all id e [] = refl
find_buffer-offer_all id e (s ∷ l) = ground (arith, find_buffer-offer_all id e l)

-- A published event is put behind what waits in each subscriber's channel that has room; a full
-- channel, and every other one's content, stays as it was.
pub waiting-publish :
    (id : ℕ) (e : Event) (b : Bus) → waiting id (publish e b) ≡ Option.map (offer e) (waiting id b)
unfolding waiting publish
waiting-publish id e b = find_buffer-offer_all id e b.subs
