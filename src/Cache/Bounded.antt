-- ===== src/Cache/Bounded.antt =====
-- backend/pkg/cache/bounded.go: a cache of at most `max_size` entries that drops its oldest one. The
-- keys are texts, as for the compiled patterns; the mutex makes each operation one step.
pub mod Queue
pub mod Refines
use ctfboard.Base.{zero}
use ctfboard.Base.{
  ℕ, suc, ◌-◌, Bool, Option, none, some, String, List, [], ◌∷◌, ◌++◌, leb, str_eq, length, map,
  delete_where, if◌then◌else◌,
}

pub record BoundedCache (V : Type 0) : Type 0 where
  pub entries : List (String × V)
  pub index : List (String × ℕ)
  pub max_size : ℕ

-- What `Get` does: the key is absent, or it is found, or the index points outside the entries.
pub data Found (V : Type 0) : Type 0 where
  absent : Found V
  found : V → Found V
  panics : Found V

-- `c.index[key]`
abbrev pub lookup : String → List (String × ℕ) → Option ℕ
lookup k [] = none
lookup k ((j, i) ∷ r) = if str_eq j k then some i else lookup k r

-- `for k, idx := range c.index { c.index[k] = idx - 1 }`
abbrev pub shifted : List (String × ℕ) → List (String × ℕ)
shifted [] = []
shifted ((j, i) ∷ r) = (j, i - 1) ∷ shifted r

abbrev pub forgotten : String → List (String × ℕ) → List (String × ℕ)
forgotten k = delete_where (λ e. str_eq e.0 k)

abbrev pub default_bounded_cache_size : ℕ
default_bounded_cache_size = 100

module _ {V : Type 0} where
  -- `c.entries[idx]`
  abbrev pub entry_at : ℕ → List (String × V) → Option (String × V)
  entry_at i [] = none
  entry_at zero (e ∷ es) = some e
  entry_at (suc i) (e ∷ es) = entry_at i es

  abbrev pub value_of : Option (String × V) → Found V
  value_of none = panics
  value_of (some e) = found e.1

  abbrev pub get_at : Option ℕ → List (String × V) → Found V
  get_at none es = absent
  get_at (some i) es = value_of (entry_at i es)

  -- `Get`
  unfoldable pub get : String → BoundedCache V → Found V
  get key c = get_at (lookup key c.index) c.entries

  -- Dropping the oldest entry; `none` where there is none, which panics.
  abbrev pub evict : BoundedCache V → List (String × V) → Option (BoundedCache V)
  evict c [] = none
  evict c (oldest ∷ rest) = some (record {
    entries = rest;
    index = shifted (forgotten oldest.0 c.index);
    max_size = c.max_size;
  })

  abbrev pub make_room : BoundedCache V → Option (BoundedCache V)
  make_room c = if leb c.max_size (length c.entries) then evict c c.entries else some c

  abbrev pub append : String → V → Option (BoundedCache V) → Option (BoundedCache V)
  append key value none = none
  append key value (some c) = some (record {
    entries = c.entries ++ (key, value) ∷ [];
    index = (key, length c.entries) ∷ c.index;
    max_size = c.max_size;
  })

  abbrev pub set_new : String → V → BoundedCache V → Option ℕ → Option (BoundedCache V)
  set_new key value c (some _) = some c
  set_new key value c none = append key value (make_room c)

  -- `Set`
  unfoldable pub set : String → V → BoundedCache V → Option (BoundedCache V)
  set key value c = set_new key value c (lookup key c.index)

  -- `NewBoundedCache` for a size that is not negative
  abbrev pub new_bounded_cache : ℕ → BoundedCache V
  new_bounded_cache max_size = record {
    entries = [];
    index = [];
    max_size = if leb max_size 0 then default_bounded_cache_size else max_size;
  }
