-- ===== src/Hub/Pending.antt =====
-- The channels that senders wait on: each is open and belongs to one item.
use ctfboard.Hub.Channels.{BroadcastItem, is_shut, with_shut, update}
use ctfboard.Hub.Steps.{is_awaited}
use ctfboard.Base.{
  Option, ℕ, List, Bool, false, ◌∷◌, is_some_of, ◌≡◌, some, true, ◌++◌, [], arith, none, refl,
}

abbrev pub is_shared : Option ℕ → List BroadcastItem → Bool
is_shared none items = false
is_shared (some d) items = is_awaited d items

abbrev pub IsPending : (ℕ → Bool) → List BroadcastItem → Type 0
IsPending done [] = Unit {0}
IsPending done (item ∷ items) =
    (is_shut item.done done ≡ false) × (is_shared item.done items ≡ false) × IsPending done items

is_shut-update :
    (d : ℕ) (o : Option ℕ) (done : ℕ → Bool)
    → is_some_of d o ≡ false
    → is_shut o done ≡ false
    → is_shut o (update done d true) ≡ false
is_shut-update d none done n h = refl
is_shut-update d (some k) done n h = ground (arith, n, h)

IsPending-update :
    (d : ℕ) (done : ℕ → Bool) (items : List BroadcastItem)
    → is_awaited d items ≡ false
    → IsPending done items
    → IsPending (update done d true) items
IsPending-update d done [] n p = tt
IsPending-update d done (item ∷ items) n p = (
  is_shut-update d item.done done (ground (arith, n)) p.0,
  p.1,
  IsPending-update d done items (ground (arith, n)) p.2,
)

-- Closing the channel of one item leaves those of the others open.
pub IsPending-shut :
    (o : Option ℕ) (done : ℕ → Bool) (items : List BroadcastItem)
    → is_shared o items ≡ false
    → IsPending done items
    → IsPending (with_shut o done) items
IsPending-shut none done items n p = p
IsPending-shut (some d) done items n p = IsPending-update d done items n p

is_awaited-append :
    (d : ℕ) (items : List BroadcastItem) (item : BroadcastItem)
    → is_awaited d items ≡ false
    → is_some_of d item.done ≡ false
    → is_awaited d (items ++ item ∷ []) ≡ false
is_awaited-append d [] item n m = ground (arith, m)
is_awaited-append d (x ∷ items) item n m = ground (arith, n, is_awaited-append d items item)

abbrev overlap : Option ℕ → Option ℕ → Bool
overlap none p = false
overlap (some d) p = is_some_of d p

overlap_sym : (o p : Option ℕ) → overlap o p ≡ false → overlap p o ≡ false
overlap_sym none none h = refl
overlap_sym none (some k) h = refl
overlap_sym (some d) none h = refl
overlap_sym (some d) (some k) h = ground (arith, h)

is_shared-append :
    (o : Option ℕ) (items : List BroadcastItem) (item : BroadcastItem)
    → is_shared o items ≡ false
    → overlap o item.done ≡ false
    → is_shared o (items ++ item ∷ []) ≡ false
is_shared-append none items item n m = refl
is_shared-append (some d) items item n m = is_awaited-append d items item n m

is_shared-head :
    (o : Option ℕ) (x : BroadcastItem) (items : List BroadcastItem)
    → is_shared o (x ∷ items) ≡ false
    → (overlap o x.done ≡ false) × (is_shared o items ≡ false)
is_shared-head none x items n = (refl, refl)
is_shared-head (some d) x items n = (ground (arith, n), ground (arith, n))

is_shared-nil : (o : Option ℕ) → is_shared o [] ≡ false
is_shared-nil none = refl
is_shared-nil (some d) = refl

-- An item with a new channel, or with none, may come behind.
pub IsPending-append :
    (done : ℕ → Bool) (items : List BroadcastItem) (item : BroadcastItem)
    → IsPending done items
    → is_shut item.done done ≡ false
    → is_shared item.done items ≡ false
    → IsPending done (items ++ item ∷ [])
IsPending-append done [] item p o n = (o, is_shared-nil item.done, tt)
IsPending-append done (x ∷ items) item p o n =
    let (head, rest) = is_shared-head item.done x items n in
    (
      p.0,
      is_shared-append x.done items item p.1 (overlap_sym item.done x.done head),
      IsPending-append done items item p.2 o rest,
    )
