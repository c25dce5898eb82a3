-- ===== src/Hub/Tests.antt =====
-- A hub with one client, and the theorems there.
use ctfboard.Base.{some, [], ◌∷◌, refl, true, false, Bool, arith, ◌≡◌, ℕ, length, ◌+◌, ◌≤◌, ◌++◌}
use ctfboard.Hub.Steps.{
  fresh, connected_phase, System, Reach, new_system, enqueue, next, new_hub, offer, start, connect,
  is_awaited, Trace,
}
use ctfboard.Hub.Channels.{
  Event, register, Hub, notification, update, serve, connected, unregister_client, capacity,
}
use ctfboard.Base.Int.{pos, ◌+ℤ◌}
use ctfboard.Hub.Invariant.{IsValid, Reach-IsValid}
use ctfboard.Hub.Echo.{IsQuiet, broadcast_event_echoes}
use ctfboard.Hub.Delivery.{no_panic, serve_times, serve_times_drains}

abbrev hello : Event
hello = notification (record { message = "hello"; level = "info"; timestamp = 7 })

-- Client 1 has registered and has its welcome.
abbrev one_client : Bool → System
one_client has_redis = record (new_system has_redis) {
  hub = record new_hub {
    clients = 1 ∷ [];
    client_count = pos 1;
    send = update new_hub.send 1 (record { queue = connected 5 ∷ []; closed = false });
  };
  phase = update (λ _. fresh) 1 connected_phase;
}

one_client-Reach : (has_redis : Bool) → Reach has_redis (one_client has_redis)
unfolding register ◌+ℤ◌
one_client-Reach has_redis = next start (connect 5 1 (one_client has_redis).hub refl refl refl)

-- The same with an event on the way.
abbrev busy : System
busy = record (one_client false) {
  hub = enqueue hello (some 3) (one_client false).hub;
  waiting = hello ∷ [];
}

busy-Reach : Reach false busy
busy-Reach = next (one_client-Reach false) (offer hello 3 refl refl (omega arith) refl)

Reach-IsValid_example : IsValid busy
Reach-IsValid_example = Reach-IsValid busy-Reach

no_panic_example :
    ((h : Hub) × (serve busy.hub ≡ some h))
    × ((now c : ℕ) → busy.phase c ≡ fresh → (h : Hub) × (register now c busy.hub ≡ some h))
    × ((c : ℕ)
        → busy.phase c ≡ connected_phase
        → (h : Hub) × (unregister_client c busy.hub ≡ some h))
no_panic_example = no_panic busy-Reach

serve_times_drains_example :
    (h : Hub) × (serve_times 1 busy.hub ≡ some h)
    × (h.broadcast ≡ [])
    × ((d : ℕ) → is_awaited d busy.hub.broadcast ≡ true → h.done d ≡ true)
    × ((c : ℕ)
        → busy.phase c ≡ connected_phase
        → length (busy.hub.send c).queue + 1 ≤ capacity
        → (h.send c).queue ≡ (busy.hub.send c).queue ++ hello ∷ [])
serve_times_drains_example = serve_times_drains busy-Reach

broadcast_event_echoes_example :
    (t : System) × Trace (one_client true) (hello ∷ []) t
    × IsQuiet t
    × ((t.hub.send 1).queue ≡ connected 5 ∷ hello ∷ hello ∷ [])
broadcast_event_echoes_example =
    broadcast_event_echoes {s = one_client true} hello 3 1 (one_client-Reach true)
      (record { broadcast = refl; waiting = refl; subscribed = refl }) refl refl (omega arith)
