-- ===== src/Hub/Echo.antt =====
-- One `BroadcastEvent` from start to end. `app.go` starts both `Run` and `SubscribeToRedis` on the hub,
-- so what it publishes comes back to it.

use mathlib.Core.List.{append_assoc}
use ctfboard.Base.{
  true, false, some, [], ◌∷◌, refl, Option, ℕ, ◌≡◌, length, ◌<◌, ◌++◌, arith, Bool, List, ◌+◌,
  Bool-cases, inl, inr, none,
}
use ctfboard.Hub.Steps.{
  connected_phase, System, enqueue, published, Reach, offer, run, publish, next, relay, go,
  is_awaited, stay, Trace,
}
use ctfboard.Hub.Channels.{Event, Hub, BroadcastItem, capacity, serve, is_shut}
use ctfboard.Hub.Invariant.{served, IsValid, Reach-IsValid}
use ctfboard.Hub.Sends.{send_all-total, length-append}
use ctfboard.Hub.Delivery.{open_clients, serve-served, send_all-push}

abbrev item_of : Event → Option ℕ → BroadcastItem
item_of e done = record { event = e; done = done }

-- The event of one item, served on an empty channel, is put behind what a client has.
record Round (e : Event) (s : System) (h : Hub) : Type 0 where
  pub emptied : h.broadcast ≡ []
  pub got :
      (c : ℕ)
      → s.phase c ≡ connected_phase
      → length (s.hub.send c).queue < capacity
      → (h.send c).queue ≡ (s.hub.send c).queue ++ e ∷ []

serve-Round :
    {s : System} (e : Event) (done : Option ℕ)
    → IsValid s
    → s.hub.broadcast ≡ []
    → is_shut done s.hub.done ≡ false
    → (h : Hub) × (serve (enqueue e done s.hub) ≡ some h) × Round e s h
serve-Round {s} e done v q o =
    let (send, all) = send_all-total e s.hub.clients s.hub.send (open_clients v) in
    (
      served (item_of e done) [] send (enqueue e done s.hub),
      serve-served (item_of e done) [] send (enqueue e done s.hub) (ground (arith, q)) all o,
      record {
        emptied = refl;
        got = λ c f room. ground (
          arith,
          f,
          v.registered c,
          send_all-push e s.hub.clients s.hub.send send c v.distinct all,
        );
      },
    )

abbrev times : Bool → Event → List Event
times false e = e ∷ []
times true e = e ∷ e ∷ []

-- Nothing is under way.
pub record IsQuiet (s : System) : Type 0 where
  pub broadcast : s.hub.broadcast ≡ []
  pub waiting : s.waiting ≡ []
  pub subscribed : s.subscribed ≡ []

abbrev offered : Event → ℕ → System → System
offered e d s = record s { hub = enqueue e (some d) s.hub; waiting = s.waiting ++ e ∷ [] }

abbrev published_at : Event → Hub → System → System
published_at e h s = record s {
  hub = h;
  waiting = [];
  subscribed = published s.has_redis e s.subscribed;
}

pub Trace-Reach :
    {has_redis : Bool} {s t : System} {es : List Event}
    → Reach has_redis s
    → Trace s es t
    → Reach has_redis t
Trace-Reach r stay = r
Trace-Reach r (go p st) = next (Trace-Reach r p) st

-- `BroadcastEvent`, up to its call of `Publish`
offered_once :
    {s : System} (e : Event) (d : ℕ)
    → Reach s.has_redis s
    → IsQuiet s
    → s.hub.done d ≡ false
    → (h : Hub) × Trace s (e ∷ []) (published_at e h s) × Round e s h
offered_once {s} e d r quiet new =
    let (h, ran, round) = serve-Round e (some d) (Reach-IsValid r) quiet.broadcast new in
    let alone : is_awaited d s.hub.broadcast ≡ false = ground (arith, quiet.broadcast) in
    (
      h,
      go {u = published_at e h s}
          (go {u = record (offered e d s) { hub = h }}
            (go {u = offered e d s} stay
              (offer e d new alone (ground (arith, quiet.broadcast)) refl))
            (run h ran refl))
          (publish e [] (ground (arith, quiet.waiting)) refl),
      round,
    )

-- `SubscribeToRedis` reads the event and hands it to the hub.
relayed_once :
    {has_redis : Bool} {s t : System} (e : Event)
    → Reach has_redis s
    → Trace s (e ∷ []) t
    → t.hub.broadcast ≡ []
    → t.subscribed ≡ e ∷ []
    → (h : Hub) × Trace s (e ∷ []) (record t { hub = h; subscribed = [] }) × Round e t h
relayed_once {t = t} e r p b q =
    let (h, ran, round) = serve-Round e none (Reach-IsValid (Trace-Reach r p)) b refl in
    (
      h,
      go {u = record t { hub = h; subscribed = [] }}
          (go {u = record t { hub = enqueue e none t.hub; subscribed = [] }} p
            (relay e [] q (ground (arith, b)) refl))
          (run h ran refl),
      round,
    )

abbrev Delivered : Event → System → ℕ → Type 0
Delivered e s c =
    (t : System) × Trace s (e ∷ []) t
    × IsQuiet t
    × ((t.hub.send c).queue ≡ (s.hub.send c).queue ++ times s.has_redis e)

-- From a state where nothing is under way, there are steps that offer this one event, and no other,
-- after which again nothing is under way and a connected client with room for two messages has it once
-- where Redis is not configured, and twice where it is, since the hub reads back what it publishes.
pub broadcast_event_echoes :
    {s : System} (e : Event) (d c : ℕ)
    → Reach s.has_redis s
    → IsQuiet s
    → s.hub.done d ≡ false
    → s.phase c ≡ connected_phase
    → length (s.hub.send c).queue + 1 < capacity
    → Delivered e s c
broadcast_event_echoes {s} e d c r quiet new f room = elim (Bool-cases s.has_redis) [
  | inl redis ↦
      let (h, path, round) = offered_once e d r quiet new in
      let (h', path', round') =
        relayed_once e r path round.emptied (ground (arith, redis, quiet.subscribed)) in
      (
        record (published_at e h s) { hub = h'; subscribed = [] },
        path',
        record { broadcast = round'.emptied; waiting = refl; subscribed = refl },
        ground (
          arith,
          round.got c f,
          round'.got c f,
          length-append (s.hub.send c).queue (e ∷ []),
          append_assoc (s.hub.send c).queue (e ∷ []) (e ∷ []),
          room,
          redis,
        ),
      )
  | inr alone ↦
      let (h, path, round) = offered_once e d r quiet new in
      (
        published_at e h s,
        path,
        record {
          broadcast = round.emptied;
          waiting = refl;
          subscribed = ground (arith, alone, quiet.subscribed);
        },
        ground (arith, round.got c f, room, alone),
      )
]
