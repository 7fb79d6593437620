-- ===== src/Config/Validate.antt =====
-- `Config::validate`, `load`, `pool`, `base_for` and `token` of src/config.rs.
use vmfleet.Prelude.{
  ℕ, List, [], ◌∷◌, Bool, not, Option, none, some, Result, ok, err, ◌>>=◌, ◌>>◌, bail_if,
  if◌then◌else◌, ltb, leb, ◌==◌, length, map, find,
}
use vmfleet.Prelude.Words.{trim}
use vmfleet.Prelude.Text.{Text, codes, text_eq, text_le, text_mem}
use vmfleet.Prelude.Sort.{sort}
use vmfleet.Config.Types.{
  Base, Pool, Config, ConfigError, no_base, bad_base_name, duplicate_base, no_pool, zero_max,
  warm_above_max, no_label, bad_pool_name, duplicate_pool, unknown_base, overlap, no_such_pool,
  unreadable_token, valid_name, scope_path, slot_end,
}
use vmfleet.Paths.{expand}

-- The loop over the bases. It returns the set of their names, the last one first.
unfoldable pub check_bases : List Text → List Base → Result ConfigError (List Text)
check_bases seen [] = ok seen
check_bases seen (b ∷ bs) = do
  bail_if (not (valid_name b.name)) (bad_base_name b.name)
  bail_if (text_mem b.name seen) (duplicate_base b.name)
  check_bases (b.name ∷ seen) bs

-- A pool's slots as `validate` compares them: from, up to, and the pool's name.
pub record SlotRange : Type 0 where
  pub from : ℕ
  pub upto : ℕ
  pub owner : Text

abbrev pub range_of : Pool → SlotRange
range_of p = record { from = p.slot_base; upto = slot_end p; owner = p.name }

-- `if let Some(bn) = &p.base`
unfoldable pub base_missing : List Text → Option Text → Option Text
base_missing names none = none
base_missing names (some b) = if text_mem b names then none else some b

abbrev bail_missing : Text → Option Text → Result ConfigError (Unit {0})
bail_missing pool none = ok tt
bail_missing pool (some b) = err (unknown_base pool b)

-- The tests of the loop on one pool.
unfoldable pub check_pool : List Text → List Text → Pool → Result ConfigError (Unit {0})
unfolding base_missing
check_pool base_names seen p = do
  bail_if (p.cap == 0) (zero_max p.name)
  bail_if (ltb p.cap p.min_warm) (warm_above_max p.name p.min_warm p.cap)
  bail_if (length p.labels == 0) (no_label p.name)
  bail_if (not (valid_name p.name)) (bad_pool_name p.name)
  bail_if (text_mem p.name seen) (duplicate_pool p.name)
  bail_missing p.name (base_missing base_names p.base)

-- The loop over the pools. It returns the slot ranges in the order of the pools.
unfoldable pub check_pools : List Text → List Text → List Pool → Result ConfigError (List SlotRange)
check_pools base_names seen [] = ok []
check_pools base_names seen (p ∷ ps) = do
  check_pool base_names seen p
  rest ← check_pools base_names (p.name ∷ seen) ps
  ok (range_of p ∷ rest)

-- The order of the tuples (u32, u32, &str).
unfoldable pub range_le : SlotRange → SlotRange → Bool
range_le a b =
    if a.from == b.from
    then (if a.upto == b.upto then text_le a.owner b.owner else leb a.upto b.upto)
    else leb a.from b.from

-- `for w in ranges.windows(2)`
unfoldable pub check_windows : List SlotRange → Result ConfigError (Unit {0})
check_windows [] = ok tt
check_windows (a ∷ []) = ok tt
check_windows (a ∷ b ∷ rest) = do
  bail_if (ltb b.from a.upto) (overlap a.owner b.owner)
  check_windows (b ∷ rest)

unfoldable pub validate : {F : Type 0} → Config F → Result ConfigError (Unit {0})
validate c = do
  scope ← scope_path c.github
  bail_if (length c.bases == 0) no_base
  base_names ← check_bases [] c.bases
  bail_if (length c.pools == 0) no_pool
  ranges ← check_pools base_names [] c.pools
  check_windows (sort range_le ranges)

-- `load`: the file is read and parsed by code that is given, `none` standing for its failures. The
-- paths are expanded, and the result is validated.
pub data LoadError : Type 0 where
  unreadable unparsable : LoadError
  invalid : ConfigError → LoadError

expand_base : (Text → Option Text) → Base → Base
expand_base env b = record b { setup_scripts = map (expand env) b.setup_scripts }

module _ {F : Type 0} (env : Text → Option Text) where
  unfoldable pub expand_paths : Config F → Config F
  unfolding expand_base
  expand_paths c = record c {
    github = record (c.github) { token_file = expand env c.github.token_file };
    storage = record { vault_path = expand env c.storage.vault_path };
    bases = map (expand_base env) c.bases;
  }

  unfoldable pub validated : Config F → Result ConfigError (Unit {0}) → Result LoadError (Config F)
  validated c (ok _) = ok c
  validated c (err e) = err (invalid e)

  unfoldable pub from_parsed : Option (Config F) → Result LoadError (Config F)
  unfolding validated
  from_parsed none = err unparsable
  from_parsed (some c) = let c' = expand_paths c in validated c' (validate c')

  unfoldable pub from_text : (Text → Option (Config F)) → Option Text → Result LoadError (Config F)
  unfolding from_parsed
  from_text parse none = err unreadable
  from_text parse (some text) = from_parsed (parse text)

  unfoldable pub load :
      (Text → Option Text) → (Text → Option (Config F)) → Text → Result LoadError (Config F)
  unfolding from_text
  load read parse path = from_text parse (read path)

module _ {F : Type 0} (c : Config F) where
  found_pool : Text → Option Pool → Result ConfigError Pool
  found_pool name none = err (no_such_pool name)
  found_pool name (some p) = ok p

  unfoldable pub pool : Text → Result ConfigError Pool
  unfolding found_pool
  pool name = found_pool name (find (λ p. text_eq p.name name) c.pools)

  first_base : List Base → Option Base
  first_base [] = none
  first_base (b ∷ bs) = some b

  or_first : Option Base → Option Base
  unfolding first_base
  or_first none = first_base c.bases
  or_first (some b) = some b

  named_base : Option Text → Option Base
  unfolding or_first
  named_base none = first_base c.bases
  named_base (some n) = or_first (find (λ b. text_eq b.name n) c.bases)

  -- `none` is the panic of `bases[0]` where there is no base.
  unfoldable pub base_for : Pool → Option Base
  unfolding named_base
  base_for p = named_base p.base

  trimmed_token : Option Text → Result ConfigError Text
  trimmed_token none = err unreadable_token
  trimmed_token (some t) = ok (trim t)

  -- The variable wins where it holds more than white space; else the file is read.
  unfoldable pub token : (Text → Option Text) → (Text → Option Text) → Result ConfigError Text
  unfolding trimmed_token
  token env read = elim (env (codes "VMFLEET_TOKEN")) [
    | none ↦ trimmed_token (read c.github.token_file)
    | some t ↦
        if length (trim t) == 0 then trimmed_token (read c.github.token_file) else ok (trim t)
  ]
