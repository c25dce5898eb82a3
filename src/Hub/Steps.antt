-- ===== src/Hub/Steps.antt =====
-- The goroutines around the hub as a step relation: the loop of `Run`, `HandleWS` with the pumps of
-- each client, the senders of events, and `SubscribeToRedis`. `Broadcast` and `Register` block until
-- `Run` can take what they send, so such a step is taken when there is room. `BroadcastEvent` waits for
-- its item for at most five seconds, so `publish` can come before the item is served.
use ctfboard.Base.{
  ℕ, ◌≡◌, ◌<◌, Bool, true, false, Option, none, some, List, [], ◌∷◌, ◌++◌, length, exists_where,
  is_some_of,
}
use ctfboard.Base.Int.{pos}
use ctfboard.Hub.Channels.{
  Event, Hub, new_channel, capacity, register, unregister_client, serve, update, BroadcastItem,
}

-- What a client's goroutines have done: nothing, `Register`, or `Register` and `Unregister`.
pub data Phase : Type 0 where
  fresh connected_phase gone : Phase

pub record System : Type 0 where
  pub hub : Hub
  pub phase : ℕ → Phase
  -- Events whose `BroadcastEvent` has not published them to Redis yet
  pub waiting : List Event
  -- What `SubscribeToRedis` has still to read. Redis is configured where `has_redis`.
  pub has_redis : Bool
  pub subscribed : List Event

abbrev pub new_hub : Hub
new_hub = record {
  clients = [];
  broadcast = [];
  client_count = pos 0;
  send = λ _. new_channel;
  done = λ _. false;
}

abbrev pub new_system : Bool → System
new_system has_redis = record {
  hub = new_hub;
  phase = λ _. fresh;
  waiting = [];
  has_redis = has_redis;
  subscribed = [];
}

-- `h.broadcast <- item`
abbrev pub enqueue : Event → Option ℕ → Hub → Hub
enqueue e done h = record h { broadcast = h.broadcast ++ record { event = e; done = done } ∷ [] }

-- `if h.redisClient != nil { h.redisClient.Publish(...) }`: every subscriber gets it, this one too.
abbrev pub published : Bool → Event → List Event → List Event
published false e es = es
published true e es = es ++ e ∷ []

-- A `BroadcastEvent` that waits for the item with this `done`
abbrev pub is_awaited : ℕ → List BroadcastItem → Bool
is_awaited d = exists_where (λ item. is_some_of d item.done)

pub data Step (s t : System) : Type 0 where
  -- `HandleWS`: a new client is registered once, before its pumps start.
  connect :
      (now c : ℕ) (h : Hub)
      → s.phase c ≡ fresh
      → register now c s.hub ≡ some h
      → t ≡ record s { hub = h; phase = update s.phase c connected_phase }
      → Step s t
  -- `ReadPump` returns.
  disconnect :
      (c : ℕ) (h : Hub)
      → s.phase c ≡ connected_phase
      → unregister_client c s.hub ≡ some h
      → t ≡ record s { hub = h; phase = update s.phase c gone }
      → Step s t
  -- `WritePump` takes a message.
  write :
      (c : ℕ) (e : Event) (es : List Event)
      → (s.hub.send c).queue ≡ e ∷ es
      → t ≡ record s {
        hub = record s.hub { send = update s.hub.send c (record (s.hub.send c) { queue = es }) };
      }
      → Step s t
  -- `BroadcastEvent` makes the channel `d`, which is no other item's and is open, and puts its item on
  -- the hub's channel.
  offer :
      (e : Event) (d : ℕ)
      → s.hub.done d ≡ false
      → is_awaited d s.hub.broadcast ≡ false
      → length s.hub.broadcast < capacity
      → t ≡ record s { hub = enqueue e (some d) s.hub; waiting = s.waiting ++ e ∷ [] }
      → Step s t
  -- It goes on when its item is served, or after five seconds.
  publish :
      (e : Event) (es : List Event)
      → s.waiting ≡ e ∷ es
      → t ≡ record s { waiting = es; subscribed = published s.has_redis e s.subscribed }
      → Step s t
  -- `SubscribeToRedis` hands on what it reads.
  relay :
      (e : Event) (es : List Event)
      → s.subscribed ≡ e ∷ es
      → length s.hub.broadcast < capacity
      → t ≡ record s { hub = enqueue e none s.hub; subscribed = es }
      → Step s t
  -- `Run` serves the next item.
  run : (h : Hub) → serve s.hub ≡ some h → t ≡ record s { hub = h } → Step s t

pub data Reach (has_redis : Bool) : System → Type 0 where
  start : Reach has_redis (new_system has_redis)
  next : {s t : System} → Reach has_redis s → Step s t → Reach has_redis t

-- The event that a step offers, if it does
abbrev pub offers : {s t : System} → Step s t → List Event
offers (offer e d o n r h) = e ∷ []
offers _ = []

-- Steps from `s` on, with the events that are offered on the way
pub data Trace (s : System) : List Event → System → Type 0 where
  stay : Trace s [] s
  go :
      {es : List Event} {t u : System}
      → Trace s es t
      → (st : Step t u) → Trace s (es ++ offers st) u
