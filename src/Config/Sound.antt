-- ===== src/Config/Sound.antt =====
-- What `validate` of src/config.rs accepts.
use vmfleet.Prelude.{
  Option-cases, ◌≤◌, ◌<◌, List, [], ◌∷◌, true, false, map, Option, none, some, ok, ◌≡◌, ◌≢◌, ◌⊎◌,
  inl, inr, arith, All, length, ◌==◌, bail_if, >>=-eq-ok, subst, bail_if-eq-ok,
}
use vmfleet.Prelude.Text.{Text, text_mem, text_eq_iff}
use vmfleet.Prelude.Sort.{Pairs}
use vmfleet.Config.Types.{Base, Pool, Config, GitHub, no_base, no_pool, valid_name, scope_path}
use vmfleet.Config.Validate.{
  SlotRange, range_of, check_bases, base_missing, check_pool, check_pools, validate,
}
use vmfleet.Config.Slots.{AreApart, SharesNoSlot, AreApart-SharesNoSlot, check_windows-sort}

abbrev pub base_names : List Base → List Text
base_names [] = []
base_names (b ∷ bs) = b.name ∷ base_names bs

-- A pool on its own, beside the bases.
pub record IsGoodPool (bases : List Base) (p : Pool) : Type 0 where
  pub has_room : 0 < p.cap
  pub warm_fits : p.min_warm ≤ p.cap
  pub has_label : p.labels ≢ []
  pub well_named : valid_name p.name ≡ true
  pub base_known :
      (p.base ≡ none) ⊎ ((n : Text) × (p.base ≡ some n) × (text_mem n (base_names bases) ≡ true))

-- A configuration that the program can run on.
pub record IsRunnable {F : Type 0} (c : Config F) : Type 0 where
  pub one_scope :
      ((c.github.repo ≢ none) × (c.github.org ≡ none))
      ⊎ ((c.github.repo ≡ none) × (c.github.org ≢ none))
  pub some_base : c.bases ≢ []
  pub bases_named : All (λ b. valid_name b.name ≡ true) c.bases
  pub bases_differ : Pairs (λ a b. a.name ≢ b.name) c.bases
  pub some_pool : c.pools ≢ []
  pub pools_good : All (IsGoodPool c.bases) c.pools
  pub pools_differ : Pairs (λ p q. p.name ≢ q.name) c.pools
  pub slots_differ : Pairs SharesNoSlot c.pools

-- The names that the loop over the bases returns are those seen before and those of the bases.
check_bases-names :
    (n : Text) (seen : List Text) (bs : List Base) {names : List Text}
    → check_bases seen bs ≡ ok names
    → text_mem n names ≡ true
    → (text_mem n seen ≡ true) ⊎ (text_mem n (base_names bs) ≡ true)
unfolding check_bases text_mem
check_bases-names n seen [] h m = ground arith
check_bases-names n seen (b ∷ bs) {names} h m =
    let rest : check_bases (b.name ∷ seen) bs ≡ ok names = ground arith in
    ground (arith, check_bases-names n (b.name ∷ seen) bs rest m)

record NamedApart (seen : List Text) (bs : List Base) : Type 0 where
  named : All (λ b. valid_name b.name ≡ true) bs
  differ : Pairs (λ a b. a.name ≢ b.name) bs
  fresh : All (λ b. text_mem b.name seen ≡ false) bs

fresh_cons :
    {A : Type 0} (name : A → Text) (n : Text) (seen : List Text) (xs : List A)
    → All (λ x. text_mem (name x) (n ∷ seen) ≡ false) xs
    → All (λ x. n ≢ name x) xs × All (λ x. text_mem (name x) seen ≡ false) xs
unfolding text_mem
fresh_cons name n seen [] h = (tt, tt)
fresh_cons name n seen (x ∷ xs) (p, h) =
    let (q, r) = fresh_cons name n seen xs h in
    ((ground (arith, text_eq_iff n (name x)), q), (ground arith, r))

check_bases-NamedApart :
    (seen : List Text) (bs : List Base) {names : List Text}
    → check_bases seen bs ≡ ok names
    → NamedApart seen bs
unfolding check_bases
check_bases-NamedApart seen [] h = record { named = tt; differ = tt; fresh = tt }
check_bases-NamedApart seen (b ∷ bs) {names} h =
    let rest : check_bases (b.name ∷ seen) bs ≡ ok names = ground arith in
    let good : valid_name b.name ≡ true = ground arith in
    let new : text_mem b.name seen ≡ false = ground arith in
    let ih = check_bases-NamedApart (b.name ∷ seen) bs rest in
    let (apart, older) = fresh_cons (λ (x : Base). x.name) b.name seen bs ih.fresh in
    record { named = (good, ih.named); differ = (apart, ih.differ); fresh = (new, older) }

base_missing-eq-none :
    (names : List Text) (o : Option Text) (n : Text)
    → base_missing names o ≡ none
    → o ≡ some n
    → text_mem n names ≡ true
unfolding base_missing
base_missing-eq-none names o n h e = ground arith

known_base :
    (n : Text) (bases : List Base) (names : List Text)
    → check_bases [] bases ≡ ok names
    → text_mem n names ≡ true
    → text_mem n (base_names bases) ≡ true
unfolding text_mem
known_base n bases names b m = elim (check_bases-names n [] bases b m) [
  | inl absent ↦ cc
  | inr known ↦ known
]

check_pool-IsGoodPool :
    (bases : List Base) (names seen : List Text) (p : Pool)
    → check_bases [] bases ≡ ok names
    → check_pool names seen p ≡ ok tt
    → IsGoodPool bases p × (text_mem p.name seen ≡ false)
unfolding check_pool
check_pool-IsGoodPool bases names seen p b h = (
  record {
    has_room = ground arith;
    warm_fits = ground arith;
    has_label = ground arith;
    well_named = ground arith;
    base_known = elim (Option-cases p.base) [
      | inl e ↦ inl e
      | inr (n, e) ↦
          inr (
            n,
            e,
            known_base n bases names b (base_missing-eq-none names p.base n (ground arith) e),
          )
    ];
  },
  ground arith,
)

record PoolsApart (bases : List Base) (seen : List Text) (ps : List Pool) (rs : List SlotRange)
    : Type 0 where
  good : All (IsGoodPool bases) ps
  differ : Pairs (λ p q. p.name ≢ q.name) ps
  fresh : All (λ p. text_mem p.name seen ≡ false) ps
  ranges : rs ≡ map range_of ps

check_pools-PoolsApart :
    (bases : List Base) (names : List Text)
    → check_bases [] bases ≡ ok names
    → (seen : List Text) (ps : List Pool) {rs : List SlotRange} → check_pools names seen ps ≡ ok rs
    → PoolsApart bases seen ps rs
unfolding check_pools
check_pools-PoolsApart bases names b seen [] h = record {
  good = tt;
  differ = tt;
  fresh = tt;
  ranges = ground arith;
}
check_pools-PoolsApart bases names b seen (p ∷ ps) h =
    let (u, checked, more) = >>=-eq-ok (check_pool names seen p) _ h in
    let (rs', rest, last) = >>=-eq-ok (check_pools names (p.name ∷ seen) ps) _ more in
    let (good, new) = check_pool-IsGoodPool bases names seen p b checked in
    let ih = check_pools-PoolsApart bases names b (p.name ∷ seen) ps rest in
    let (apart, older) = fresh_cons (λ (x : Pool). x.name) p.name seen ps ih.fresh in
    record {
      good = (good, ih.good);
      differ = (apart, ih.differ);
      fresh = (new, older);
      ranges = ground (arith, ih.ranges);
    }

All-of_map :
    (p : Pool) (ps : List Pool)
    → All (AreApart (range_of p)) (map range_of ps)
    → All (SharesNoSlot p) ps
All-of_map p [] h = tt
All-of_map p (q ∷ ps) (a, h) = (AreApart-SharesNoSlot p q a, All-of_map p ps h)

Pairs-of_map : (ps : List Pool) → Pairs AreApart (map range_of ps) → Pairs SharesNoSlot ps
Pairs-of_map [] h = tt
Pairs-of_map (p ∷ ps) (a, h) = (All-of_map p ps a, Pairs-of_map ps h)

not_empty {ℓ} : {A : Type ℓ} (xs : List A) → (length xs == 0) ≡ false → xs ≢ []
not_empty xs h = ground arith

scope_path-one :
    (g : GitHub) {t : Text}
    → scope_path g ≡ ok t
    → ((g.repo ≢ none) × (g.org ≡ none)) ⊎ ((g.repo ≡ none) × (g.org ≢ none))
unfolding scope_path
scope_path-one g h = ground arith

-- A configuration that `validate` accepts names exactly one scope, has bases and pools with valid
-- names that differ among the bases and among the pools, each pool has room for its warm machines,
-- a label and a base that is defined, and no slot number belongs to two pools.
pub validate-IsRunnable : {F : Type 0} (c : Config F) → validate c ≡ ok tt → IsRunnable c
unfolding validate
validate-IsRunnable c h =
    let (scope, s, h1) = >>=-eq-ok (scope_path c.github) _ h in
    let (_, e1, h2) = >>=-eq-ok (bail_if (length c.bases == 0) no_base) _ h1 in
    let (names, b, h3) = >>=-eq-ok (check_bases [] c.bases) _ h2 in
    let (_, e2, h4) = >>=-eq-ok (bail_if (length c.pools == 0) no_pool) _ h3 in
    let (rs, ps, w) = >>=-eq-ok (check_pools names [] c.pools) _ h4 in
    let bases = check_bases-NamedApart [] c.bases b in
    let pools = check_pools-PoolsApart c.bases names b [] c.pools ps in
    record {
      one_scope = scope_path-one c.github s;
      some_base = not_empty c.bases (bail_if-eq-ok _ no_base e1);
      bases_named = bases.named;
      bases_differ = bases.differ;
      some_pool = not_empty c.pools (bail_if-eq-ok _ no_pool e2);
      pools_good = pools.good;
      pools_differ = pools.differ;
      slots_differ =
          Pairs-of_map c.pools (subst (Pairs AreApart) pools.ranges (check_windows-sort rs w));
    }
