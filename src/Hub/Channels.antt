-- ===== src/Hub/Channels.antt =====
-- The state of backend/pkg/websocket/hub.go and what each case of `Run` does with it. `none` stands for
-- the panic of a send on a closed channel or of closing a closed one.
use ctfboard.Base.{
  ℕ, Bool, true, false, Option, none, some, String, List, [], ◌∷◌, ◌++◌, ◌==◌, ltb, length,
  delete_where, exists_where, if◌then◌else◌,
}
use ctfboard.Base.Int.{ℤ, pos, ◌+ℤ◌, ◌-ℤ◌}

pub data EventType : Type 0 where
  solve first_blood : EventType

pub record ScoreboardUpdate : Type 0 where
  pub kind : EventType
  pub team_id : ℕ
  pub challenge : String
  pub points : ℤ
  pub timestamp : ℕ

pub record Notification : Type 0 where
  pub message : String
  pub level : String
  pub timestamp : ℕ

-- `Event` with its payload, which JSON carries whole.
pub data Event : Type 0 where
  connected : ℕ → Event
  scoreboard_update : ScoreboardUpdate → Event
  notification : Notification → Event

-- A buffered channel: what is in it, the oldest first, and whether it is closed.
pub record Channel : Type 0 where
  pub queue : List Event
  pub closed : Bool

-- `make(chan []byte, 256)` and `make(chan broadcastItem, 256)`
abbrev pub capacity : ℕ
capacity = 256

abbrev pub new_channel : Channel
new_channel = record { queue = []; closed = false }

-- A send that does not wait: a full channel stays as it is.
abbrev pub push : Event → Channel → Channel
push e ch = if ltb (length ch.queue) capacity then record ch { queue = ch.queue ++ e ∷ [] } else ch

-- `select { case ch <- e: default: }`
unfoldable pub try_send : Event → Channel → Option Channel
try_send e ch = if ch.closed then none else some (push e ch)

unfoldable pub close : Channel → Option Channel
close ch = if ch.closed then none else some (record ch { closed = true })

-- `done`, the number of a `chan struct{}`, if the sender waits.
pub record BroadcastItem : Type 0 where
  pub event : Event
  pub done : Option ℕ

pub record Hub : Type 0 where
  pub clients : List ℕ
  pub broadcast : List BroadcastItem
  pub client_count : ℤ
  pub send : ℕ → Channel
  pub done : ℕ → Bool

abbrev pub update {ℓ} : {A : Type ℓ} → (ℕ → A) → ℕ → A → ℕ → A
update f k a j = if j == k then a else f j

abbrev pub is_client : ℕ → List ℕ → Bool
is_client c = exists_where (λ d. d == c)

-- `h.clients[c] = true`
abbrev pub add_client : ℕ → List ℕ → List ℕ
add_client c cs = if is_client c cs then cs else c ∷ cs

abbrev pub with_channel : ℕ → Hub → Option Channel → Option Hub
with_channel c h none = none
with_channel c h (some ch) = some (record h { send = update h.send c ch })

-- The case of `h.register`, at the time `now`
unfoldable pub register : ℕ → ℕ → Hub → Option Hub
unfolding try_send
register now c h =
    with_channel c
      (record h { clients = add_client c h.clients; client_count = h.client_count +ℤ pos 1 })
      (try_send (connected now) (h.send c))

unfoldable pub unregister_client : ℕ → Hub → Option Hub
unfolding close
unregister_client c h =
    if is_client c h.clients
    then with_channel c
        (record h {
          clients = delete_where (λ d. d == c) h.clients;
          client_count = h.client_count -ℤ pos 1;
        })
        (close (h.send c))
    else some h

-- `for client := range h.clients`, in the order of the list
unfoldable pub send_all : Event → List ℕ → (ℕ → Channel) → Option (ℕ → Channel)
unfolding try_send
send_all e [] send = some send
send_all e (c ∷ cs) send = elim (try_send e (send c)) [
  | none ↦ none
  | some ch ↦ send_all e cs (update send c ch)
]

abbrev pub is_shut : Option ℕ → (ℕ → Bool) → Bool
is_shut none done = false
is_shut (some d) done = done d

abbrev pub with_shut : Option ℕ → (ℕ → Bool) → ℕ → Bool
with_shut none done = done
with_shut (some d) done = update done d true

-- `if item.done != nil { close(item.done) }`, which panics on a closed channel
unfoldable pub close_done : Option ℕ → Hub → Option Hub
close_done d h = if is_shut d h.done then none else some (record h { done = with_shut d h.done })

abbrev pub after_send : BroadcastItem → Hub → Option (ℕ → Channel) → Option Hub
after_send item h none = none
after_send item h (some send) = close_done item.done (record h { send = send })

unfoldable pub broadcast_to_clients : BroadcastItem → Hub → Option Hub
unfolding send_all close_done
broadcast_to_clients item h = after_send item h (send_all item.event h.clients h.send)

abbrev pub serve_from : Hub → List BroadcastItem → Option Hub
serve_from h [] = some h
serve_from h (item ∷ rest) = broadcast_to_clients item (record h { broadcast = rest })

-- The case of `h.broadcast`: the next item, if there is one
unfoldable pub serve : Hub → Option Hub
unfolding broadcast_to_clients
serve h = serve_from h h.broadcast
