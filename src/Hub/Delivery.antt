-- ===== src/Hub/Delivery.antt =====
-- What reaches the clients, and that `Run` never panics and serves all that it is given.
use ctfboard.Base.{
  Bool-cases, inl, inr, ◌++◌, refl, zero, suc, none, some, [], ◌∷◌, true, false, ℕ, List, Option,
  map, length, ◌+◌, ◌≡◌, ◌≤◌, if◌then◌else◌, ap, sym, arith, ℕ_discrete, ◌∙◌, Bool, delete_where,
  ◌==◌,
}
use mathlib.Core.List.{append-nil, append_assoc}
use ctfboard.Base.Int.{pos, ◌+ℤ◌, ◌-ℤ◌}
use ctfboard.Hub.Channels.{
  Hub, BroadcastItem, Event, send_all, Channel, serve, push, is_client, capacity, update,
  close_done, is_shut, broadcast_to_clients, serve_from, register, unregister_client, add_client,
  connected,
}
use ctfboard.Hub.Sends.{IsDistinct, length-append, send_all-total, send_all-Sent}
use ctfboard.Hub.Pending.{IsPending, IsPending-shut}
use ctfboard.Hub.Steps.{is_awaited, System, Reach, fresh, connected_phase}
use ctfboard.Hub.Invariant.{served, IsValid, Reach-IsValid}

-- `Run` at work: it serves `n` items, one after another.
abbrev pub serve_times : ℕ → Hub → Option Hub
serve_times zero h = some h
serve_times (suc n) h = elim (serve h) [ none ↦ none | some h' ↦ serve_times n h' ]

abbrev pub events : List BroadcastItem → List Event
events = map (λ item. item.event)

abbrev pub push_all : List Event → Channel → Channel
push_all [] ch = ch
push_all (e ∷ es) ch = push_all es (push e ch)

-- A client with room for all of them gets all of them, in order.
pub push_all_room :
    (es : List Event) (ch : Channel)
    → length ch.queue + length es ≤ capacity
    → (push_all es ch).queue ≡ ch.queue ++ es
push_all_room [] ch r = sym (append-nil ch.queue)
push_all_room (e ∷ es) ch r = ground (
  arith,
  push_all_room es (push e ch),
  length-append ch.queue (e ∷ []),
  append_assoc ch.queue (e ∷ []) es,
)

push-update :
    (e : Event) (c : ℕ) (cs : List ℕ) (send : ℕ → Channel) (d : ℕ)
    → is_client c cs ≡ false
    → (if is_client d cs
        then push e (update send c (push e (send c)) d)
        else update send c (push e (send c)) d)
      ≡ (if is_client d (c ∷ cs) then push e (send d) else send d)
push-update e c cs send d n = elim (ℕ_discrete d c) [
  | yes same ↦
      let absent : is_client d cs ≡ false = ap (λ (x : ℕ). is_client x cs) same ∙ n in
      ground (arith, same, absent)
  | no other ↦ ground (arith, other)
]

pub send_all-push :
    (e : Event) (cs : List ℕ) (send after : ℕ → Channel) (d : ℕ)
    → IsDistinct cs
    → send_all e cs send ≡ some after
    → after d ≡ (if is_client d cs then push e (send d) else send d)
unfolding send_all
send_all-push e [] send after d u h =
    let same : send ≡ after = cc in ap (λ (f : ℕ → Channel). f d) (sym same)
send_all-push e (c ∷ cs) send after d u h = elim (Bool-cases (send c).closed) [
  | inl shut ↦ absurd (ground (arith, h, shut))
  | inr open_ ↦
      send_all-push e cs (update send c (push e (send c))) after d u.1 (ground (arith, h, open_))
      ∙ push-update e c cs send d u.0
]

pub serve-served :
    (item : BroadcastItem) (rest : List BroadcastItem) (send : ℕ → Channel) (h : Hub)
    → h.broadcast ≡ item ∷ rest
    → send_all item.event h.clients h.send ≡ some send
    → is_shut item.done h.done ≡ false
    → serve h ≡ some (served item rest send h)
unfolding serve broadcast_to_clients close_done
serve-served item rest send h q e o = rw q (rw e (rw o))

pub record Drained (items : List BroadcastItem) (h h' : Hub) : Type 0 where
  pub emptied : h'.broadcast ≡ []
  pub same_clients : h'.clients ≡ h.clients
  pub delivered :
      (c : ℕ)
      → h'.send c ≡ (if is_client c h.clients then push_all (events items) (h.send c) else h.send c)
  pub still_woken : (d : ℕ) → h.done d ≡ true → h'.done d ≡ true
  pub woken : (d : ℕ) → is_awaited d items ≡ true → h'.done d ≡ true

Drained-cons :
    (item : BroadcastItem) (rest : List BroadcastItem) (send : ℕ → Channel) (h h' : Hub)
    → IsDistinct h.clients
    → send_all item.event h.clients h.send ≡ some send
    → Drained rest (served item rest send h) h'
    → Drained (item ∷ rest) h h'
Drained-cons item rest send h h' u e r = record {
  emptied = r.emptied;
  same_clients = r.same_clients;
  delivered =
      λ c. ground (arith, r.delivered c, send_all-push item.event h.clients h.send send c u e);
  still_woken = λ d w. r.still_woken d (ground (arith, w));
  woken = λ d w. ground (arith, r.woken d, r.still_woken d, w);
}

drain_items :
    (items : List BroadcastItem) (h : Hub)
    → h.broadcast ≡ items
    → IsDistinct h.clients
    → IsPending h.done items
    → ((c : ℕ) → is_client c h.clients ≡ true → (h.send c).closed ≡ false)
    → (h' : Hub) × (serve_times (length items) h ≡ some h') × Drained items h h'
drain_items [] h q u p o = (
  h,
  refl,
  record {
    emptied = q;
    same_clients = refl;
    delivered = λ c. ground arith;
    still_woken = λ d w. w;
    woken = λ d w. absurd (cc);
  },
)
drain_items (item ∷ rest) h q u p o =
    let (send, e) = send_all-total item.event h.clients h.send o in
    let (h', done, r) =
      drain_items rest (served item rest send h) refl u
        (IsPending-shut item.done h.done rest p.1 p.2)
        (λ c m. (send_all-Sent item.event h.clients h.send send e).same_closed c ∙ o c m) in
    (
      h',
      rw (serve-served item rest send h q e p.0, serve_times) done,
      Drained-cons item rest send h h' u e r,
    )

pub length-events : (items : List BroadcastItem) → length (events items) ≡ length items
length-events [] = refl
length-events (item ∷ items) = omega (arith, length-events items)

pub open_clients :
    {s : System}
    → IsValid s
    → (c : ℕ) → is_client c s.hub.clients ≡ true
    → (s.hub.send c).closed ≡ false
open_clients v c m = ground (arith, m, v.registered c, v.closed c)

serve_from-total :
    (h : Hub) (items : List BroadcastItem)
    → IsPending h.done items
    → ((c : ℕ) → is_client c h.clients ≡ true → (h.send c).closed ≡ false)
    → (h' : Hub) × (serve_from h items ≡ some h')
unfolding broadcast_to_clients close_done
serve_from-total h [] p o = (h, refl)
serve_from-total h (item ∷ rest) p o =
    let (send, e) = send_all-total item.event h.clients h.send o in
    (served item rest send h, rw e (rw p.0 refl))

serve-total : {s : System} → IsValid s → (h : Hub) × (serve s.hub ≡ some h)
unfolding serve
serve-total {s} v = serve_from-total s.hub s.hub.broadcast v.pending (open_clients v)

register-total :
    (now c : ℕ) (h : Hub) → (h.send c).closed ≡ false → (h' : Hub) × (register now c h ≡ some h')
unfolding register
register-total now c h o = (
  record h {
    clients = add_client c h.clients;
    client_count = h.client_count +ℤ pos 1;
    send = update h.send c (push (connected now) (h.send c));
  },
  rw o refl,
)

unregister_client-total :
    (c : ℕ) (h : Hub) → (h.send c).closed ≡ false → (h' : Hub) × (unregister_client c h ≡ some h')
unfolding unregister_client
unregister_client-total c h o = elim (Bool-cases (is_client c h.clients)) [
  | inl m ↦ (
    record h {
      clients = delete_where (λ d. d == c) h.clients;
      client_count = h.client_count -ℤ pos 1;
      send = update h.send c (record (h.send c) { closed = true });
    },
    rw m (rw o refl),
  )
  | inr m ↦ (h, rw m refl)
]

-- In every reachable state `Run` does not panic, whichever of its cases it takes next: it neither sends
-- to a closed channel nor closes one twice, be it a client's or that of a waiting `BroadcastEvent`.
pub no_panic :
    {has_redis : Bool} {s : System}
    → Reach has_redis s
    → ((h : Hub) × (serve s.hub ≡ some h))
      × ((now c : ℕ) → s.phase c ≡ fresh → (h : Hub) × (register now c s.hub ≡ some h))
      × ((c : ℕ) → s.phase c ≡ connected_phase → (h : Hub) × (unregister_client c s.hub ≡ some h))
no_panic {s} r =
    let v = Reach-IsValid r in
    (
      serve-total v,
      λ now c f. register-total now c s.hub (ground (arith, f, v.closed c)),
      λ c f. unregister_client-total c s.hub (ground (arith, f, v.closed c)),
    )

-- From every reachable state, `Run` empties its channel by serving as many items as are there; each
-- sender that waits for one of them is woken, and each client that has room for all the events gets all
-- of them, in the order in which they were sent, behind what it had.
pub serve_times_drains :
    {has_redis : Bool} {s : System}
    → Reach has_redis s
    → (h : Hub) × (serve_times (length s.hub.broadcast) s.hub ≡ some h)
      × (h.broadcast ≡ [])
      × ((d : ℕ) → is_awaited d s.hub.broadcast ≡ true → h.done d ≡ true)
      × ((c : ℕ)
          → s.phase c ≡ connected_phase
          → length (s.hub.send c).queue + length s.hub.broadcast ≤ capacity
          → (h.send c).queue ≡ (s.hub.send c).queue ++ events s.hub.broadcast)
serve_times_drains {s} r =
    let v = Reach-IsValid r in
    let (h, done, d) =
      drain_items s.hub.broadcast s.hub refl v.distinct v.pending (open_clients v) in
    (
      h,
      done,
      d.emptied,
      d.woken,
      λ c f room. ground (
        arith,
        f,
        v.registered c,
        d.delivered c,
        push_all_room (events s.hub.broadcast) (s.hub.send c),
        length-events s.hub.broadcast,
      ),
    )
