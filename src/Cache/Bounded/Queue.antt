-- ===== src/Cache/Bounded/Queue.antt =====
-- The bounded cache as a queue: its index gives the position of every key among its entries.
use ctfboard.Base.{◌-◌, ◌||◌, ap, leb}
use ctfboard.Base.{
  ℕ, suc, ◌<◌, ◌≤◌, ◌≡◌, refl, Bool, true, false, Option, none, some, String, List, [], ◌∷◌, ◌++◌,
  str_eq, str_eq_iff, length, if◌then◌else◌, arith, mapped,
}
use ctfboard.Cache.Bounded.{BoundedCache, Found, absent, found, lookup, shifted, forgotten, get_at}
use ctfboard.Store.Challenges.{}

lookup-forgotten :
    (k o : String) (r : List (String × ℕ))
    → lookup k (forgotten o r) ≡ (if str_eq o k then none else lookup k r)
lookup-forgotten k o [] = ground arith
lookup-forgotten k o ((j, i) ∷ r) =
    ground (arith, lookup-forgotten k o r, str_eq_iff j o, str_eq_iff j k, str_eq_iff o k)

lookup-shifted :
    (k : String) (r : List (String × ℕ)) → lookup k (shifted r) ≡ mapped (λ i. i - 1) (lookup k r)
lookup-shifted k [] = refl
lookup-shifted k ((j, i) ∷ r) = ground (arith, lookup-shifted k r)

module _ {V : Type 0} where
  -- Where a key stands in a queue, and its value.
  abbrev pub position : String → List (String × V) → Option ℕ
  position k [] = none
  position k (e ∷ es) = if str_eq e.0 k then some 0 else mapped suc (position k es)

  abbrev pub assoc : String → List (String × V) → Found V
  assoc k [] = absent
  assoc k (e ∷ es) = if str_eq e.0 k then found e.1 else assoc k es

  abbrev pub has_key : String → List (String × V) → Bool
  has_key k [] = false
  has_key k (e ∷ es) = if str_eq e.0 k then true else has_key k es

  abbrev pub DistinctKeys : List (String × V) → Type 0
  DistinctKeys [] = Unit {0}
  DistinctKeys (e ∷ es) = (has_key e.0 es ≡ false) × DistinctKeys es

  -- The index gives the position of every key, no key stands twice, and there are at most `max_size`
  -- entries.
  pub record IsIndexed (c : BoundedCache V) : Type 0 where
    pub agrees : (k : String) → lookup k c.index ≡ position k c.entries
    pub distinct : DistinctKeys c.entries
    pub room : 0 < c.max_size
    pub within : length c.entries ≤ c.max_size

  pub get_at-position :
      (k : String) (es : List (String × V)) → get_at (position k es) es ≡ assoc k es
  get_at-position k [] = refl
  get_at-position k (e ∷ es) = ground (arith, get_at-position k es)

  position-append :
      (k : String) (e : String × V) (es : List (String × V))
      → has_key e.0 es ≡ false
      → position k (es ++ e ∷ []) ≡ (if str_eq e.0 k then some (length es) else position k es)
  position-append k e [] h = ground arith
  position-append k e (x ∷ xs) h =
      ground
        (arith, h, position-append k e xs, str_eq_iff x.0 k, str_eq_iff e.0 k, str_eq_iff x.0 e.0)

  pub position-none :
      (k : String) (es : List (String × V)) → has_key k es ≡ false → position k es ≡ none
  position-none k [] h = refl
  position-none k (e ∷ es) h = ground (arith, h, position-none k es)

  pub has_key-none :
      (k : String) (es : List (String × V)) → position k es ≡ none → has_key k es ≡ false
  has_key-none k [] h = refl
  has_key-none k (e ∷ es) h = ground (arith, h, has_key-none k es)

  has_key-append :
      (k : String) (e : String × V) (es : List (String × V))
      → has_key k (es ++ e ∷ []) ≡ (has_key k es || str_eq e.0 k)
  has_key-append k e [] = ground arith
  has_key-append k e (x ∷ xs) = ground (arith, has_key-append k e xs)

  distinct-append :
      (e : String × V) (es : List (String × V))
      → has_key e.0 es ≡ false
      → DistinctKeys es
      → DistinctKeys (es ++ e ∷ [])
  distinct-append e [] h d = (refl, tt)
  distinct-append e (x ∷ xs) h d = (
    ground (arith, h, d, has_key-append x.0 e xs, str_eq_iff x.0 e.0, str_eq_iff e.0 x.0),
    distinct-append e xs (ground (arith, h)) d.1,
  )

  length-append :
      (e : String × V) (es : List (String × V)) → length (es ++ e ∷ []) ≡ suc (length es)
  length-append e [] = refl
  length-append e (x ∷ xs) = ap suc (length-append e xs)

  -- A queue that has room takes an entry under a new key.
  pub append-IsIndexed :
      (c : BoundedCache V) (k : String) (v : V)
      → IsIndexed c
      → has_key k c.entries ≡ false
      → length c.entries < c.max_size
      → IsIndexed (record {
        entries = c.entries ++ (k, v) ∷ [];
        index = (k, length c.entries) ∷ c.index;
        max_size = c.max_size;
      })
  append-IsIndexed c k v h new room = record {
    agrees = λ j. ground (arith, h.agrees j, position-append j (k, v) c.entries new);
    distinct = distinct-append (k, v) c.entries new h.distinct;
    room = h.room;
    within = ground (arith, room, length-append (k, v) c.entries);
  }

  abbrev pub cache_of : List (String × V) → List (String × ℕ) → ℕ → BoundedCache V
  cache_of es idx max = record { entries = es; index = idx; max_size = max }

  -- Dropping the oldest entry keeps the index right.
  pub evict-IsIndexed :
      (o : String × V) (es : List (String × V)) (idx : List (String × ℕ)) (max : ℕ)
      → IsIndexed (cache_of (o ∷ es) idx max)
      → IsIndexed (cache_of es (shifted (forgotten o.0 idx)) max)
  evict-IsIndexed o es idx max h = record {
    agrees = λ j. ground (
      arith,
      lookup-shifted j (forgotten o.0 idx),
      lookup-forgotten j o.0 idx,
      h.agrees j,
      position-none o.0 es h.distinct.0,
      str_eq_iff o.0 j,
    );
    distinct = h.distinct.1;
    room = h.room;
    within = ground (arith, h.within);
  }

  -- The queue that a cache stands for: a new key goes to the end, and the oldest entry makes room.
  abbrev pub without_oldest : List (String × V) → List (String × V)
  without_oldest [] = []
  without_oldest (e ∷ es) = es

  abbrev pub with_room : ℕ → List (String × V) → List (String × V)
  with_room max es = if leb max (length es) then without_oldest es else es

  abbrev pub queue_set : ℕ → String → V → List (String × V) → List (String × V)
  queue_set max k v es = if has_key k es then es else with_room max es ++ (k, v) ∷ []
