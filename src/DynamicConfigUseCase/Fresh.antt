-- ===== src/DynamicConfigUseCase/Fresh.antt =====
-- While the cache is good, it holds what the table holds.
use ctfboard.Store.Statement.{exec}
use ctfboard.Store.Transaction.{ok, err, Db, Env, Result}
use ctfboard.Entity.Records.{Config}
use ctfboard.Base.{
  if◌then◌else◌, List, Option, String, ◌∷◌, ℕ, some, exists_where, [], delete_where, ◌≡◌,
  Option-cases, Bool-cases, false, select_one, inl, none, str_eq, arith, subst, str_eq_iff, inr,
  refl, ap, Bool, not, true, sym, ◌⊎◌,
}
use ctfboard.DynamicConfigUseCase.{
  DynamicConfig, keep_config, fill, lookup, get_all_configs, load_all, is_cached, refresh, loaded,
}
use ctfboard.Store.Configs.{put_row, has_key, get_all_configs}
use ctfboard.Entity.Errors.{driver_failed}

-- `key` is the primary key.
abbrev pub IsKeyed : List Config → Type 0
IsKeyed [] = Unit {0}
IsKeyed (c ∷ cs) = (exists_where (has_key c.key) cs ≡ false) × IsKeyed cs

abbrev pub Agrees : List (String × Config) → List Config → Type 0
Agrees cache configs = (key : String) → lookup key cache ≡ select_one (has_key key) configs

pub record IsFresh (w : DynamicConfig) : Type 0 where
  pub keyed : IsKeyed w.db.configs
  pub agrees : (t : ℕ) → w.last_load ≡ some t → Agrees w.cache w.db.configs

abbrev or_else : Option Config → Option Config → Option Config
or_else none o = o
or_else (some c) o = some c

lookup-keep_config :
    (k key : String) (cfg : Config) (cache : List (String × Config))
    → lookup k (keep_config key cfg cache) ≡ (if str_eq key k then some cfg else lookup k cache)
unfolding keep_config
lookup-keep_config k key cfg [] = refl
lookup-keep_config k key cfg ((j, c) ∷ rest) = elim (Bool-cases (str_eq j key)) [
  | inl same ↦
      let e : j ≡ key = (str_eq_iff j key).0 same in ground (arith, same, ap (λ s. str_eq s k) e)
  | inr apart ↦
      let h = lookup-keep_config k key cfg rest in
      elim (Bool-cases (str_eq j k)) [
        | inl here ↦
            let e : j ≡ k = (str_eq_iff j k).0 here in
            ground (arith, apart, here, str_eq_iff j key, str_eq_iff key k, e)
        | inr there ↦ ground (arith, apart, there, h)
      ]
]

select_one-absent :
    (key : String) (cs : List Config)
    → exists_where (has_key key) cs ≡ false
    → select_one (has_key key) cs ≡ none
select_one-absent key [] e = refl
select_one-absent key (c ∷ cs) e = ground (arith, e, select_one-absent key cs)

lookup-fill :
    (k : String) (cache : List (String × Config)) (cs : List Config)
    → IsKeyed cs
    → lookup k (fill cache cs) ≡ or_else (select_one (has_key k) cs) (lookup k cache)
unfolding fill
lookup-fill k cache [] u = refl
lookup-fill k cache (c ∷ cs) u =
    let h = lookup-fill k (keep_config c.key c cache) cs u.1 in
    let kept = lookup-keep_config k c.key c cache in
    elim (Bool-cases (str_eq c.key k)) [
      | inl same ↦
          let absent : exists_where (has_key k) cs ≡ false =
            subst (λ s. exists_where (has_key s) cs ≡ false) ((str_eq_iff c.key k).0 same) u.0 in
          ground (arith, h, kept, same, select_one-absent k cs absent)
      | inr apart ↦ ground (arith, h, kept, apart)
    ]

pub fill-Agrees : (cs : List Config) → IsKeyed cs → Agrees (fill [] cs) cs
fill-Agrees cs u k = elim (Option-cases (select_one (has_key k) cs)) [
  | inl e ↦ ground (arith, lookup-fill k [] cs u, e)
  | inr (c, e) ↦ ground (arith, lookup-fill k [] cs u, e)
]

absent-put_row :
    (key : String) (row : Config) (cs : List Config)
    → exists_where (has_key key) cs ≡ false
    → str_eq row.key key ≡ false
    → exists_where (has_key key) (put_row row cs) ≡ false
unfolding put_row
absent-put_row key row [] e apart = ground (arith, apart)
absent-put_row key row (c ∷ cs) e apart = ground (arith, e, apart, absent-put_row key row cs)

IsKeyed-if :
    (b : Bool) (xs ys : List Config)
    → (b ≡ true → IsKeyed xs)
    → (b ≡ false → IsKeyed ys)
    → IsKeyed (if b then xs else ys)
IsKeyed-if true xs ys f g = f refl
IsKeyed-if false xs ys f g = g refl

pub put_row-IsKeyed : (row : Config) (cs : List Config) → IsKeyed cs → IsKeyed (put_row row cs)
unfolding put_row
put_row-IsKeyed row [] u = (refl, tt)
put_row-IsKeyed row (c ∷ cs) u =
    IsKeyed-if (has_key row.key c) (row ∷ cs) (c ∷ put_row row cs)
      (λ same. (
        subst (λ s. exists_where (has_key s) cs ≡ false) ((str_eq_iff c.key row.key).0 same) u.0,
        u.1,
      ))
      (λ apart. (
        absent-put_row c.key row cs u.0
            (ground (arith, apart, str_eq_iff c.key row.key, str_eq_iff row.key c.key)),
        put_row-IsKeyed row cs u.1,
      ))

absent-delete :
    (key gone : String) (cs : List Config)
    → exists_where (has_key key) cs ≡ false
    → exists_where (has_key key) (delete_where (has_key gone) cs) ≡ false
absent-delete key gone [] e = refl
absent-delete key gone (c ∷ cs) e = ground (arith, e, absent-delete key gone cs)

pub delete-IsKeyed :
    (gone : String) (cs : List Config) → IsKeyed cs → IsKeyed (delete_where (has_key gone) cs)
delete-IsKeyed gone [] u = tt
delete-IsKeyed gone (c ∷ cs) u =
    IsKeyed-if (not (has_key gone c)) (c ∷ delete_where (has_key gone) cs)
      (delete_where (has_key gone) cs)
      (λ _. (absent-delete c.key gone cs u.0, delete-IsKeyed gone cs u.1))
      (λ _. delete-IsKeyed gone cs u.1)

-- What the load comes to: the database does not answer, or the cache is as good as the table.
abbrev pub Refreshed : Env → DynamicConfig → Result (Unit {0}) × DynamicConfig → Type 0
Refreshed env w r =
    ((env.answers 0 ≡ false) × (r ≡ (err driver_failed, w)))
    ⊎ ((w' : DynamicConfig) × (r ≡ (ok tt, w'))
        × IsFresh w'
        × (w'.db ≡ w.db)
        × Agrees w'.cache w'.db.configs)

all_configs-run :
    (env : Env) (db : Db) → env.answers 0 ≡ true → (exec env 0 get_all_configs db).0 ≡ ok db.configs
unfolding exec get_all_configs
all_configs-run env db up = ground (arith, up)

all_configs-fails :
    (env : Env) (db : Db)
    → env.answers 0 ≡ false
    → (exec env 0 get_all_configs db).0 ≡ err driver_failed
unfolding exec
all_configs-fails env db down = ground (arith, down)

load_all-Refreshed : (env : Env) (w : DynamicConfig) → IsFresh w → Refreshed env w (load_all env w)
unfolding load_all
load_all-Refreshed env w f = elim (Bool-cases (env.answers 0)) [
  | inl up ↦
      let full = fill-Agrees w.db.configs f.keyed in
      inr (
        record w { cache = fill [] w.db.configs; last_load = some env.now },
        ap (loaded env.now w) (all_configs-run env w.db up),
        record { keyed = f.keyed; agrees = λ t e. full },
        refl,
        full,
      )
  | inr down ↦ inl (down, ap (loaded env.now w) (all_configs-fails env w.db down))
]

is_cached-some : (now : ℕ) (o : Option ℕ) → is_cached now o ≡ true → (t : ℕ) × (o ≡ some t)
is_cached-some now none e = cc
is_cached-some now (some t) e = (t, refl)

pub refresh-Refreshed :
    (env : Env) (w : DynamicConfig) → IsFresh w → Refreshed env w (refresh env w)
refresh-Refreshed env w f = elim (Bool-cases (is_cached env.now w.last_load)) [
  | inl good ↦
      let (t, at) = is_cached-some env.now w.last_load good in
      inr (w, ground (arith, good), f, refl, f.agrees t at)
  | inr old ↦
      subst (λ b. Refreshed env w (if b then (ok tt, w) else load_all env w)) (sym old)
        (load_all-Refreshed env w f)
]
