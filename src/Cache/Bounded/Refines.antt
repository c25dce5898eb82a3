-- ===== src/Cache/Bounded/Refines.antt =====
-- `Get` and `Set` do what a queue does.
use ctfboard.Base.{◌++◌, []}
use ctfboard.Base.{
  ℕ, String, ◌≤◌, List, ◌⊎◌, ◌<◌, Bool-cases, leb, inl, arith, inr, ◌≡◌, some, none, length, ap,
  ◌∷◌, Option-cases, false, ◌∙◌, sym,
}
use ctfboard.Cache.Bounded.{BoundedCache, set, get, lookup, get_at, shifted, forgotten}
use ctfboard.Cache.Bounded.Queue.{
  cache_of, IsIndexed, assoc, queue_set, position-none, has_key, has_key-none, get_at-position,
  append-IsIndexed, evict-IsIndexed,
}

ℕ_le_cases : (a b : ℕ) → (a ≤ b) ⊎ (b < a)
ℕ_le_cases a b = elim (Bool-cases (leb a b)) [
  | inl e ↦ inl (ground (arith, e))
  | inr e ↦ inr (ground (arith, e))
]

module _ {V : Type 0} where
  -- What a successful `Set` leaves: the entries of the queue, with the index still right.
  abbrev pub Sets : String → V → List (String × V) → List (String × ℕ) → ℕ → Type 0
  Sets k v es idx max =
      (c : BoundedCache V) × (set k v (cache_of es idx max) ≡ some c)
      × IsIndexed c
      × (c.entries ≡ queue_set max k v es)

  set_full :
      (k : String) (v : V) (es : List (String × V)) (idx : List (String × ℕ)) (max : ℕ)
      → IsIndexed (cache_of es idx max)
      → lookup k idx ≡ none
      → max ≤ length es
      → Sets k v es idx max
  unfolding set
  set_full k v [] idx max h new full = absurd (ground (arith, h.room, full))
  set_full k v (o ∷ es) idx max h new full =
      let fresh : has_key k (o ∷ es) ≡ false = has_key-none k (o ∷ es) (sym (h.agrees k) ∙ new) in
      (
        cache_of (es ++ (k, v) ∷ []) ((k, length es) ∷ shifted (forgotten o.0 idx)) max,
        ground (arith, new, full),
        append-IsIndexed (cache_of es (shifted (forgotten o.0 idx)) max) k v
            (evict-IsIndexed o es idx max h) (ground (arith, fresh)) (ground (arith, h.within)),
        ground (arith, fresh, full),
      )

  set_room :
      (k : String) (v : V) (es : List (String × V)) (idx : List (String × ℕ)) (max : ℕ)
      → IsIndexed (cache_of es idx max)
      → lookup k idx ≡ none
      → length es < max
      → Sets k v es idx max
  unfolding set
  set_room k v es idx max h new free =
      let fresh : has_key k es ≡ false = has_key-none k es (sym (h.agrees k) ∙ new) in
      (
        cache_of (es ++ (k, v) ∷ []) ((k, length es) ∷ idx) max,
        ground (arith, new, free),
        append-IsIndexed (cache_of es idx max) k v h fresh free,
        ground (arith, fresh, free),
      )

  set_known :
      (k : String) (v : V) (es : List (String × V)) (idx : List (String × ℕ)) (max i : ℕ)
      → IsIndexed (cache_of es idx max)
      → lookup k idx ≡ some i
      → Sets k v es idx max
  unfolding set
  set_known k v es idx max i h known = (
    cache_of es idx max,
    ground (arith, known),
    h,
    ground (arith, known, h.agrees k, position-none k es),
  )

  -- `Set` never panics: where the index is right, it leaves the entries that a queue of that size
  -- has, and a right index. A key that is known keeps its value and its place.
  pub set-IsIndexed :
      (k : String) (v : V) (c : BoundedCache V)
      → IsIndexed c
      → (c' : BoundedCache V) × (set k v c ≡ some c')
        × IsIndexed c'
        × (c'.entries ≡ queue_set c.max_size k v c.entries)
  set-IsIndexed k v c h = elim (Option-cases (lookup k c.index)) [
    | inr (i, known) ↦ set_known k v c.entries c.index c.max_size i h known
    | inl new ↦ elim (ℕ_le_cases c.max_size (length c.entries)) [
      | inl full ↦ set_full k v c.entries c.index c.max_size h new full
      | inr free ↦ set_room k v c.entries c.index c.max_size h new free
    ]
  ]

  -- `Get` never panics: where the index is right, it finds what the entries hold under the key.
  pub get-assoc : (k : String) (c : BoundedCache V) → IsIndexed c → get k c ≡ assoc k c.entries
  unfolding get
  get-assoc k c h = ap (λ o. get_at o c.entries) (h.agrees k) ∙ get_at-position k c.entries
