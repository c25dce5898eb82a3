-- ===== src/Cache/Tests.antt =====
-- A full cache, and the theorems at that input.
use ctfboard.Base.{◌≡◌, refl, some, ◌∷◌, [], ℕ}
use ctfboard.Cache.Bounded.{BoundedCache, set}
use ctfboard.Cache.Bounded.Queue.{IsIndexed}
use ctfboard.Cache.Bounded.Refines.{set-IsIndexed}
use ctfboard.Samples.{full_cache, full_cache-IsIndexed}

set_drops_oldest :
    set "c" 3 full_cache
    ≡ some (record {
      entries = ("b", 2) ∷ ("c", 3) ∷ [];
      index = ("c", 1) ∷ ("b", 0) ∷ [];
      max_size = 2;
    })
unfolding set
set_drops_oldest = refl

set-IsIndexed_example :
    (c' : BoundedCache ℕ) × (set "c" 3 full_cache ≡ some c')
    × IsIndexed c'
    × (c'.entries ≡ ("b", 2) ∷ ("c", 3) ∷ [])
set-IsIndexed_example = set-IsIndexed "c" 3 full_cache full_cache-IsIndexed
