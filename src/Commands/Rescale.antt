-- ===== src/Commands/Rescale.antt =====
-- What `scale` of src/commands.rs makes of a configuration: it changes the limits of one pool.
use vmfleet.Prelude.{
  ℕ, List, [], ◌∷◌, true, false, Option, some, none, Result, ok, err, ◌>>=◌, ◌>>◌, ◌≡◌, inl, inr,
  refl, arith, if◌then◌else◌, >>=-eq-ok, Bool-cases, Option-cases, subst,
}
use vmfleet.Prelude.Text.{Text, text_eq}
use vmfleet.Config.{Pool, Config, ConfigError, no_such_pool}
use vmfleet.Config.Validate.{validate}
use vmfleet.Config.Sound.{IsRunnable, validate-IsRunnable}

abbrev or_old : Option ℕ → ℕ → ℕ
or_old none old = old
or_old (some new) old = new

-- `if let Some(m) = min` and `if let Some(m) = max`
abbrev pub with_limits : Option ℕ → Option ℕ → Pool → Pool
with_limits low high p = record p { min_warm = or_old low p.min_warm; cap = or_old high p.cap }

abbrev cons_pools : Pool → Option (List Pool) → Option (List Pool)
cons_pools p none = none
cons_pools p (some ps) = some (p ∷ ps)

-- The first pool of the name, changed in its place; `none` where there is none.
unfoldable pub change_pool : Text → Option ℕ → Option ℕ → List Pool → Option (List Pool)
change_pool name low high [] = none
change_pool name low high (p ∷ ps) =
    let rest = change_pool name low high ps in
    if text_eq p.name name then some (with_limits low high p ∷ ps) else cons_pools p rest

abbrev found_pools : Text → Option (List Pool) → Result ConfigError (List Pool)
found_pools name none = err (no_such_pool name)
found_pools name (some ps) = ok ps

-- The pools after the change: the first one of the name has the new limits.
pub data Changes (name : Text) (low high : Option ℕ) : List Pool → List Pool → Type 0 where
  here :
      {p : Pool} {ps : List Pool}
      → text_eq p.name name ≡ true
      → Changes name low high (p ∷ ps) (with_limits low high p ∷ ps)
  there :
      {p : Pool} {ps qs : List Pool}
      → text_eq p.name name ≡ false
      → Changes name low high ps qs
      → Changes name low high (p ∷ ps) (p ∷ qs)

change_pool-Changes :
    (name : Text) (low high : Option ℕ) (ps : List Pool) {qs : List Pool}
    → change_pool name low high ps ≡ some qs
    → Changes name low high ps qs
unfolding change_pool
change_pool-Changes name low high [] h = cc
change_pool-Changes name low high (p ∷ ps) {qs} h = elim (Bool-cases (text_eq p.name name)) [
  | inl e ↦ subst (Changes name low high (p ∷ ps)) (found e) (here e)
  | inr e ↦ elim (Option-cases (change_pool name low high ps)) [
    | inl missing ↦ absurd (lost e missing)
    | inr (qs', rest) ↦
        subst (Changes name low high (p ∷ ps)) (kept e rest)
          (there e (change_pool-Changes name low high ps rest))
  ]
]
  where
    found : text_eq p.name name ≡ true → with_limits low high p ∷ ps ≡ qs
    found e = ground arith

    lost : text_eq p.name name ≡ false → change_pool name low high ps ≡ none → ⊥
    lost e m = ground arith

    kept :
        text_eq p.name name ≡ false
        → {qs' : List Pool} → change_pool name low high ps ≡ some qs'
        → p ∷ qs' ≡ qs
    kept e m = ground arith

found_pools-eq-ok :
    (name : Text) (o : Option (List Pool)) {ps : List Pool}
    → found_pools name o ≡ ok ps
    → o ≡ some ps
found_pools-eq-ok name none h = cc
found_pools-eq-ok name (some ps) h = ground arith

module _ {F : Type 0} where
  -- What `scale` makes of a configuration before it writes it.
  unfoldable pub rescale : Text → Option ℕ → Option ℕ → Config F → Result ConfigError (Config F)
  rescale name low high c = do
    ps ← found_pools name (change_pool name low high c.pools)
    validate (record c { pools = ps })
    ok (record c { pools = ps })

  -- The configuration that comes of it differs from the old one in the limits of the first pool of
  -- the name alone, and the program can run on it.
  pub record IsRescaled (name : Text) (low high : Option ℕ) (c c' : Config F) : Type 0 where
    pub rest_kept : c' ≡ record c { pools = c'.pools }
    pub one_changed : Changes name low high c.pools c'.pools
    pub runnable : IsRunnable c'

  pub rescale-IsRescaled :
      (name : Text) (low high : Option ℕ) (c : Config F) {c' : Config F}
      → rescale name low high c ≡ ok c'
      → IsRescaled name low high c c'
  unfolding rescale
  rescale-IsRescaled name low high c {c'} h =
      let (ps, f, h1) = >>=-eq-ok (found_pools name (change_pool name low high c.pools)) _ h in
      let (u, v, h2) = >>=-eq-ok (validate (record c { pools = ps })) _ h1 in
      let e : record c { pools = ps } ≡ c' = ground arith in
      subst (IsRescaled name low high c) e (record {
        rest_kept = refl;
        one_changed = change_pool-Changes name low high c.pools (found_pools-eq-ok name _ f);
        runnable = validate-IsRunnable (record c { pools = ps }) v;
      })
