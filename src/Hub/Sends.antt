-- ===== src/Hub/Sends.antt =====
-- Rounds of sends to the channels of clients, and the list of clients.
use ctfboard.Base.{
  refl, subst, List, ℕ, ◌∷◌, ◌≡◌, length, true, ◌++◌, ◌≤◌, false, ◌+◌, arith, [], ◌∙◌, delete_where,
  some, if◌then◌else◌, ◌==◌, Bool-cases, inl, inr,
}
use ctfboard.Hub.Channels.{Event, Channel, is_client, update, capacity, push, send_all, add_client}

abbrev pub IsDistinct : List ℕ → Type 0
IsDistinct [] = Unit {0}
IsDistinct (c ∷ cs) = (is_client c cs ≡ false) × IsDistinct cs

pub length-append : {A : Type 0} (xs ys : List A) → length (xs ++ ys) ≡ length xs + length ys
length-append [] ys = omega arith
length-append (x ∷ xs) ys = omega (arith, length-append xs ys)

pub push-room :
    (e : Event) (ch : Channel) → length ch.queue ≤ capacity → length (push e ch).queue ≤ capacity
push-room e ch h = ground (arith, length-append ch.queue (e ∷ []))

-- What a round of sends leaves alone.
pub record Sent (before after : ℕ → Channel) : Type 0 where
  pub same_closed : (c : ℕ) → (after c).closed ≡ (before c).closed
  pub still_room : (c : ℕ) → length (before c).queue ≤ capacity → length (after c).queue ≤ capacity

pub Sent-update :
    (e : Event) (c : ℕ) (send : ℕ → Channel) → Sent send (update send c (push e (send c)))
Sent-update e c send = record {
  same_closed = λ d. ground arith;
  still_room = λ d h. ground (arith, push-room e (send c));
}

Sent-trans : {f g h : ℕ → Channel} → Sent f g → Sent g h → Sent f h
Sent-trans p q = record {
  same_closed = λ c. q.same_closed c ∙ p.same_closed c;
  still_room = λ c r. q.still_room c (p.still_room c r);
}

-- A round of sends that ends changes queues only, and keeps them within their channels.
pub send_all-Sent :
    (e : Event) (cs : List ℕ) (send after : ℕ → Channel)
    → send_all e cs send ≡ some after
    → Sent send after
unfolding send_all
send_all-Sent e [] send after h =
    let same : send ≡ after = cc in
    subst (Sent send) same (record { same_closed = λ c. refl; still_room = λ c r. r })
send_all-Sent e (c ∷ cs) send after h = elim (Bool-cases (send c).closed) [
  | inl shut ↦ absurd (ground (arith, h, shut))
  | inr open_ ↦
      Sent-trans (Sent-update e c send)
        (send_all-Sent e cs (update send c (push e (send c))) after (ground (arith, h, open_)))
]

-- No send panics where the channels of the clients are open.
pub send_all-total :
    (e : Event) (cs : List ℕ) (send : ℕ → Channel)
    → ((c : ℕ) → is_client c cs ≡ true → (send c).closed ≡ false)
    → (after : ℕ → Channel) × (send_all e cs send ≡ some after)
unfolding send_all
send_all-total e [] send h = (send, refl)
send_all-total e (c ∷ cs) send h =
    let open_ : (send c).closed ≡ false = h c (ground arith) in
    let (after, done) =
      send_all-total e cs (update send c (push e (send c)))
        (λ d m. ground (arith, (Sent-update e c send).same_closed d, h d, m)) in
    (after, ground (arith, open_, done))

-- The list of clients after a registration or an end.
pub is_client-add :
    (c d : ℕ) (cs : List ℕ)
    → is_client d (add_client c cs) ≡ (if d == c then true else is_client d cs)
is_client-add c d cs = ground arith

pub is_client-delete :
    (c d : ℕ) (cs : List ℕ)
    → is_client d (delete_where (λ x. x == c) cs) ≡ (if d == c then false else is_client d cs)
is_client-delete c d [] = ground arith
is_client-delete c d (x ∷ cs) = ground (arith, is_client-delete c d cs)

pub delete-IsDistinct :
    (c : ℕ) (cs : List ℕ) → IsDistinct cs → IsDistinct (delete_where (λ x. x == c) cs)
delete-IsDistinct c [] h = tt
delete-IsDistinct c (x ∷ cs) h = ground (arith, is_client-delete c x cs, delete-IsDistinct c cs h.1)

length-delete_absent :
    (c : ℕ) (cs : List ℕ)
    → is_client c cs ≡ false
    → length (delete_where (λ x. x == c) cs) ≡ length cs
length-delete_absent c [] h = refl
length-delete_absent c (x ∷ cs) h = ground (arith, length-delete_absent c cs)

pub length-delete :
    (c : ℕ) (cs : List ℕ)
    → IsDistinct cs
    → is_client c cs ≡ true
    → length (delete_where (λ x. x == c) cs) + 1 ≡ length cs
length-delete c [] u h = cc
length-delete c (x ∷ cs) u h =
    ground (arith, length-delete c cs u.1, length-delete_absent c cs, u.0)
