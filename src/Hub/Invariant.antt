-- ===== src/Hub/Invariant.antt =====
-- What holds of the hub whatever its goroutines do.
use ctfboard.Base.{
  Option-cases, inl, inr, refl, subst, sym, ◌∙◌, ℕ, Bool, ◌≡◌, length, true, ◌≤◌, false, arith,
  some, none, suc, ◌+◌, delete_where, List, Option, ◌==◌, ◌∷◌, ◌<◌, [], Bool-cases,
}
use ctfboard.Hub.Steps.{
  Step, connect, disconnect, write, offer, publish, relay, run, start, next, connected_phase, gone,
  Phase, System, fresh, Reach, enqueue,
}
use ctfboard.Hub.Channels.{
  BroadcastItem, serve_from, broadcast_to_clients, send_all, is_client, update, capacity, push,
  add_client, register, Hub, connected, unregister_client, Event, serve, is_shut, Channel,
  close_done, with_shut,
}
use ctfboard.Base.Int.{pos, ◌+ℤ◌, ℤ, ◌-ℤ◌}
use ctfboard.Hub.Sends.{
  IsDistinct, push-room, delete-IsDistinct, Sent, length-delete, is_client-delete, length-append,
  send_all-Sent,
}
use ctfboard.Hub.Pending.{IsPending, is_shared, IsPending-append, IsPending-shut}

abbrev pub is_connected : Phase → Bool
is_connected connected_phase = true
is_connected _ = false

abbrev pub is_gone : Phase → Bool
is_gone gone = true
is_gone _ = false

pub record IsValid (s : System) : Type 0 where
  pub distinct : IsDistinct s.hub.clients
  pub counted : s.hub.client_count ≡ pos (length s.hub.clients)
  pub registered : (c : ℕ) → is_client c s.hub.clients ≡ is_connected (s.phase c)
  pub closed : (c : ℕ) → (s.hub.send c).closed ≡ is_gone (s.phase c)
  pub room : (c : ℕ) → length (s.hub.send c).queue ≤ capacity
  pub broadcast_room : length s.hub.broadcast ≤ capacity
  pub pending : IsPending s.hub.done s.hub.broadcast

count-add : (z : ℤ) (n : ℕ) → z ≡ pos n → z +ℤ pos 1 ≡ pos (suc n)
unfolding ◌+ℤ◌
count-add z n e = ground (arith, e)

count-sub : (z : ℤ) (n m : ℕ) → z ≡ pos n → m + 1 ≡ n → z -ℤ pos 1 ≡ pos m
unfolding ◌-ℤ◌
count-sub z n m e h = ground (arith, e, h)

register-some :
    (now c : ℕ) (h h' : Hub)
    → register now c h ≡ some h'
    → ((h.send c).closed ≡ false)
      × (h' ≡ record h {
        clients = add_client c h.clients;
        client_count = h.client_count +ℤ pos 1;
        send = update h.send c (push (connected now) (h.send c));
      })
unfolding register
register-some now c h h' e = ground (arith, e)

connect-IsValid :
    (now c : ℕ) (s : System) (h : Hub)
    → IsValid s
    → s.phase c ≡ fresh
    → register now c s.hub ≡ some h
    → IsValid (record s { hub = h; phase = update s.phase c connected_phase })
connect-IsValid now c s h v f e =
    let (open_, same) = register-some now c s.hub h e in
    let new : is_client c s.hub.clients ≡ false = ground (arith, v.registered c, f) in
    rw same (record {
      distinct = ground (arith, v.distinct, new);
      counted = ground (arith, count-add s.hub.client_count (length s.hub.clients) v.counted, new);
      registered = λ d. ground (arith, v.registered d);
      closed = λ d. ground (arith, v.closed d, v.closed c, f);
      room = λ d. ground (arith, v.room d, v.room c, push-room (connected now) (s.hub.send c));
      broadcast_room = v.broadcast_room;
      pending = v.pending;
    })

unregister_client-some :
    (c : ℕ) (h h' : Hub)
    → is_client c h.clients ≡ true
    → unregister_client c h ≡ some h'
    → h' ≡ record h {
      clients = delete_where (λ d. d == c) h.clients;
      client_count = h.client_count -ℤ pos 1;
      send = update h.send c (record (h.send c) { closed = true });
    }
unfolding unregister_client
unregister_client-some c h h' m e = ground (arith, m, e)

disconnect-IsValid :
    (c : ℕ) (s : System) (h : Hub)
    → IsValid s
    → s.phase c ≡ connected_phase
    → unregister_client c s.hub ≡ some h
    → IsValid (record s { hub = h; phase = update s.phase c gone })
disconnect-IsValid c s h v f e =
    let there : is_client c s.hub.clients ≡ true = ground (arith, v.registered c, f) in
    rw (unregister_client-some c s.hub h there e) (record {
      distinct = delete-IsDistinct c s.hub.clients v.distinct;
      counted =
          count-sub s.hub.client_count (length s.hub.clients) _ v.counted
            (length-delete c s.hub.clients v.distinct there);
      registered = λ d. ground (arith, v.registered d, is_client-delete c d s.hub.clients);
      closed = λ d. ground (arith, v.closed d);
      room = λ d. ground (arith, v.room d, v.room c);
      broadcast_room = v.broadcast_room;
      pending = v.pending;
    })

write-IsValid :
    (c : ℕ) (e : Event) (es : List Event) (s : System)
    → IsValid s
    → (s.hub.send c).queue ≡ e ∷ es
    → IsValid (record s {
      hub = record s.hub { send = update s.hub.send c (record (s.hub.send c) { queue = es }) };
    })
write-IsValid c e es s v q = record {
  distinct = v.distinct;
  counted = v.counted;
  registered = v.registered;
  closed = λ d. ground (arith, v.closed d, v.closed c);
  room = λ d. ground (arith, v.room d, v.room c, q);
  broadcast_room = v.broadcast_room;
  pending = v.pending;
}

enqueue-IsValid :
    (e : Event) (d : Option ℕ) (s : System) (waiting subscribed : List Event)
    → IsValid s
    → is_shut d s.hub.done ≡ false
    → is_shared d s.hub.broadcast ≡ false
    → length s.hub.broadcast < capacity
    → IsValid (record s { hub = enqueue e d s.hub; waiting = waiting; subscribed = subscribed })
enqueue-IsValid e d s waiting subscribed v open_ new r = record {
  distinct = v.distinct;
  counted = v.counted;
  registered = v.registered;
  closed = v.closed;
  room = v.room;
  broadcast_room =
      omega (arith, length-append s.hub.broadcast (record { event = e; done = d } ∷ []));
  pending =
      IsPending-append s.hub.done s.hub.broadcast (record { event = e; done = d }) v.pending open_
        new;
}

abbrev pub served : BroadcastItem → List BroadcastItem → (ℕ → Channel) → Hub → Hub
served item rest send h = record h {
  broadcast = rest;
  send = send;
  done = with_shut item.done h.done;
}

abbrev Served : Hub → Hub → Type 0
Served h h' =
    (h'.clients ≡ h.clients)
    × (h'.client_count ≡ h.client_count)
    × (length h'.broadcast ≤ length h.broadcast)
    × Sent h.send h'.send
    × (IsPending h.done h.broadcast → IsPending h'.done h'.broadcast)

serve_from-Served :
    (h h' : Hub) (items : List BroadcastItem)
    → h.broadcast ≡ items
    → serve_from h items ≡ some h'
    → Served h h'
unfolding broadcast_to_clients close_done
serve_from-Served h h' [] q e =
    let same : h ≡ h' = cc in
    subst (Served h) same
      (refl, refl, omega arith, record { same_closed = λ c. refl; still_room = λ c r. r }, λ p. p)
serve_from-Served h h' (item ∷ rest) q e =
    elim (Option-cases (send_all item.event h.clients h.send)) [
      | inl stuck ↦ absurd (ground (arith, e, stuck))
      | inr (send, done) ↦ elim (Bool-cases (is_shut item.done h.done)) [
        | inl shut ↦ absurd (ground (arith, e, done, shut))
        | inr open_ ↦
            let same : served item rest send h ≡ h' = ground (arith, e, done, open_) in
            subst (Served h) same (
              refl,
              refl,
              ground (arith, q),
              send_all-Sent item.event h.clients h.send send done,
              λ p.
                  let waiting : IsPending h.done (item ∷ rest) = subst (IsPending h.done) q p in
                  IsPending-shut item.done h.done rest waiting.1 waiting.2,
            )
      ]
    ]

serve-Served : (h h' : Hub) → serve h ≡ some h' → Served h h'
unfolding serve
serve-Served h h' e = serve_from-Served h h' h.broadcast refl e

run-IsValid :
    (s : System) (h : Hub) → IsValid s → serve s.hub ≡ some h → IsValid (record s { hub = h })
run-IsValid s h v e =
    let (cs, n, b, sent, waiting) = serve-Served s.hub h e in
    record {
      distinct = subst IsDistinct (sym cs) v.distinct;
      counted = ground (arith, cs, n, v.counted);
      registered = λ c. ground (arith, cs, v.registered c);
      closed = λ c. sent.same_closed c ∙ v.closed c;
      room = λ c. sent.still_room c (v.room c);
      broadcast_room = omega (arith, b, v.broadcast_room);
      pending = waiting v.pending;
    }

Step-IsValid : {s t : System} → Step s t → IsValid s → IsValid t
Step-IsValid {s} (connect now c h f r e) v = rw e (connect-IsValid now c s h v f r)
Step-IsValid {s} (disconnect c h f r e) v = rw e (disconnect-IsValid c s h v f r)
Step-IsValid {s} (write c x xs q e) v = rw e (write-IsValid c x xs s v q)
Step-IsValid {s} (offer x d o n r e) v = rw e (enqueue-IsValid x (some d) s _ _ v o n r)
Step-IsValid {s} (publish x xs w e) v = rw e (record {
  distinct = v.distinct;
  counted = v.counted;
  registered = v.registered;
  closed = v.closed;
  room = v.room;
  broadcast_room = v.broadcast_room;
  pending = v.pending;
})
Step-IsValid {s} (relay x xs w r e) v = rw e (enqueue-IsValid x none s _ _ v refl refl r)
Step-IsValid {s} (run h r e) v = rw e (run-IsValid s h v r)

-- In every reachable state the counter is the number of registered clients, exactly the clients that
-- are connected are registered, exactly the channels of clients that are gone are closed, no channel
-- holds more than it has places, and each `BroadcastEvent` that waits has an open channel of its own.
pub Reach-IsValid : {has_redis : Bool} {s : System} → Reach has_redis s → IsValid s
Reach-IsValid start = record {
  distinct = tt;
  counted = refl;
  registered = λ c. refl;
  closed = λ c. refl;
  room = λ c. omega arith;
  broadcast_room = omega arith;
  pending = tt;
}
Reach-IsValid (next r st) = Step-IsValid st (Reach-IsValid r)
