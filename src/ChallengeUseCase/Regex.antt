-- ===== src/ChallengeUseCase/Regex.antt =====
-- backend/internal/usecase/challenge/challenge.go: `getCompiledRegex`, which keeps compiled patterns in
-- a bounded cache. One request at a time compiles a pattern (`singleflight`).
use ctfboard.Base.{
  refl, String, Option, List, ℕ, some, ◌≡◌, ◌++◌, ◌∷◌, false, none, [], arith, ◌⊎◌, str_eq_iff, inr,
  if-cases, ◌≢◌, inl, leb, length, ap,
}
use ctfboard.Cache.Bounded.{panics}
use ctfboard.Base.{◌++◌}
use ctfboard.Cache.Bounded.{BoundedCache, Found, get, set, found, absent}
use ctfboard.Cache.Bounded.Queue.{
  assoc, has_key, DistinctKeys, without_oldest, queue_set, IsIndexed, with_room,
}
use ctfboard.Cache.Bounded.Refines.{set-IsIndexed, get-assoc}

module _ {V : Type 0} (compile : String → Option V) where
  -- `regexp.Compile`, and `Set` on success; `none` is a panic.
  abbrev pub store_compiled :
      Option V → Option (BoundedCache V) → Option (Option V × BoundedCache V)
  store_compiled r none = none
  store_compiled r (some c) = some (r, c)

  abbrev pub compile_into : String → Option V → BoundedCache V → Option (Option V × BoundedCache V)
  compile_into pattern none c = some (none, c)
  compile_into pattern (some v) c = store_compiled (some v) (set pattern v c)

  abbrev pub compiled_from : String → BoundedCache V → Found V → Option (Option V × BoundedCache V)
  compiled_from pattern c (found v) = some (some v, c)
  compiled_from pattern c absent = compile_into pattern (compile pattern) c
  compiled_from pattern c panics = none

  -- `getCompiledRegex`
  unfoldable pub get_compiled_regex : String → BoundedCache V → Option (Option V × BoundedCache V)
  get_compiled_regex pattern c = compiled_from pattern c (get pattern c)

  -- Every value in the cache is what compiling its key gives.
  abbrev pub IsCoherent : List (String × V) → Type 0
  IsCoherent es = (j : String) (v : V) → assoc j es ≡ found v → compile j ≡ some v

  assoc-append :
      (j k : String) (v w : V) (es : List (String × V))
      → assoc j (es ++ (k, v) ∷ []) ≡ found w
      → (assoc j es ≡ found w) ⊎ ((k ≡ j) × (v ≡ w))
  assoc-append j k v w [] e = inr (ground (arith, e, str_eq_iff k j))
  assoc-append j k v w (x ∷ xs) e = ground (arith, e, assoc-append j k v w xs)

  absent-assoc : (j : String) (es : List (String × V)) → has_key j es ≡ false → assoc j es ≡ absent
  absent-assoc j [] h = refl
  absent-assoc j (e ∷ es) h = ground (arith, h, absent-assoc j es)

  assoc-without_oldest :
      (j : String) (w : V) (es : List (String × V))
      → DistinctKeys es
      → assoc j (without_oldest es) ≡ found w
      → assoc j es ≡ found w
  assoc-without_oldest j w [] d e = e
  assoc-without_oldest j w (x ∷ xs) d e =
      ground (arith, d, e, absent-assoc x.0 xs d.0, str_eq_iff x.0 j)

  queue_set-IsCoherent :
      (k : String) (v : V) (max : ℕ) (es : List (String × V))
      → DistinctKeys es
      → IsCoherent es
      → compile k ≡ some v
      → IsCoherent (queue_set max k v es)
  queue_set-IsCoherent k v max es d h c j w =
      if-cases (λ (r : List (String × V)). assoc j r ≡ found w → compile j ≡ some w) (has_key k es)
        _ _ (λ _. h j w)
        (λ _ (e : assoc j (with_room max es ++ (k, v) ∷ []) ≡ found w).
          elim (assoc-append j k v w (with_room max es) e) [
            | inl old ↦
                if-cases (λ (r : List (String × V)). assoc j r ≡ found w → compile j ≡ some w)
                  (leb max (length es)) _ _ (λ _ m. h j w (assoc-without_oldest j w es d m))
                  (λ _. h j w) old
            | inr new ↦ ground (arith, new, c)
          ])

  assoc_panics : (j : String) (es : List (String × V)) → assoc j es ≢ panics
  assoc_panics j [] e = ground (arith, e)
  assoc_panics j (x ∷ xs) e = ground (arith, e, assoc_panics j xs)

  -- What a request leaves: the compiled pattern, and a cache that is still right.
  abbrev pub Compiles : String → BoundedCache V → Found V → Type 0
  Compiles pattern c f =
      (c' : BoundedCache V) × (compiled_from pattern c f ≡ some (compile pattern, c'))
      × IsIndexed c'
      × IsCoherent c'.entries

  stored :
      (pattern : String) (c : BoundedCache V) (o : Option V)
      → IsIndexed c
      → IsCoherent c.entries
      → compile pattern ≡ o
      → (c' : BoundedCache V) × (compile_into pattern o c ≡ some (o, c'))
        × IsIndexed c'
        × IsCoherent c'.entries
  stored pattern c none h co e = (c, refl, h, co)
  stored pattern c (some v) h co e =
      let s = set-IsIndexed pattern v c h in
      (
        s.0,
        ap (store_compiled (some v)) s.1,
        s.2,
        rw s.3 (queue_set-IsCoherent pattern v c.max_size c.entries h.distinct co e),
      )

  compiles :
      (pattern : String) (c : BoundedCache V) (f : Found V)
      → IsIndexed c
      → IsCoherent c.entries
      → assoc pattern c.entries ≡ f
      → Compiles pattern c f
  compiles pattern c (found v) h co e = (c, ground (arith, co pattern v e), h, co)
  compiles pattern c absent h co e = stored pattern c (compile pattern) h co refl
  compiles pattern c panics h co e = absurd (assoc_panics pattern c.entries e)

  -- `getCompiledRegex` gives exactly what compiling the pattern gives and does not panic, whether the
  -- pattern is cached or not, where the cache's index is right and its values are compiled keys; and
  -- it leaves such a cache.
  pub get_compiled_regex-compile :
      (pattern : String) (c : BoundedCache V)
      → IsIndexed c
      → IsCoherent c.entries
      → (c' : BoundedCache V) × (get_compiled_regex pattern c ≡ some (compile pattern, c'))
        × IsIndexed c'
        × IsCoherent c'.entries
  unfolding get_compiled_regex
  get_compiled_regex-compile pattern c h co =
      rw (get-assoc pattern c h) (compiles pattern c (assoc pattern c.entries) h co refl)
