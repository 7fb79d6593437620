-- ===== src/Selfupdate/Version/Newest.antt =====
-- Which release `pick_newest` of src/selfupdate.rs picks.
use Prim.Native.Nat.{Ordering}
use vmfleet.Prelude.{
  List, [], ◌∷◌, true, false, not, Option, none, some, ◌≡◌, ◌⊎◌, inl, inr, refl, arith, All, filter,
  Bool-cases, sym, subst,
}
use vmfleet.Selfupdate.Version.{
  Release, cmp_versions, is_greater, is_newer, max_from, max_of, pick_newest,
}
use vmfleet.Selfupdate.Version.Order.{
  Chain, Chain-cmp_versions, cmp_versions-flip, cmp_versions_refl, flip,
}

abbrev pub Occurs : Release → List Release → Type 0
Occurs r [] = ⊥
Occurs r (x ∷ xs) = (r ≡ x) ⊎ Occurs r xs

-- `r` is at least as new as `q`.
abbrev AtLeast : Release → Release → Type 0
AtLeast r q = is_newer q.tag_name r.tag_name ≡ false

not_greater_trans :
    (x y z : Ordering)
    → Chain x y z
    → is_greater x ≡ false
    → is_greater y ≡ false
    → is_greater z ≡ false
not_greater_trans Ordering.lt Ordering.lt z c h k = rw c refl
not_greater_trans Ordering.lt Ordering.eq z c h k = rw c refl
not_greater_trans Ordering.lt Ordering.gt z c h k = cc
not_greater_trans Ordering.eq y z c h k = rw c k
not_greater_trans Ordering.gt y z c h k = cc

AtLeast-trans : (a b c : Release) → AtLeast a b → AtLeast b c → AtLeast a c
unfolding is_newer
AtLeast-trans a b c h k =
    not_greater_trans _ _ _ (Chain-cmp_versions c.tag_name b.tag_name a.tag_name) k h

AtLeast-refl : (a : Release) → AtLeast a a
unfolding is_newer
AtLeast-refl a = rw (cmp_versions_refl a.tag_name) refl

greater_flip : (o : Ordering) → is_greater o ≡ true → is_greater (flip o) ≡ false
greater_flip Ordering.gt h = refl
greater_flip Ordering.lt h = cc
greater_flip Ordering.eq h = cc

AtLeast-greater :
    (b r : Release) → is_greater (cmp_versions b.tag_name r.tag_name) ≡ true → AtLeast b r
unfolding is_newer
AtLeast-greater b r h = rw (cmp_versions-flip b.tag_name r.tag_name) (greater_flip _ h)

record IsMax (best : Release) (rs : List Release) (m : Release) : Type 0 where
  occurs : Occurs m (best ∷ rs)
  above_first : AtLeast m best
  above_rest : All (AtLeast m) rs

max_from-IsMax : (best : Release) (rs : List Release) → IsMax best rs (max_from best rs)
unfolding max_from
max_from-IsMax best [] = record {
  occurs = inl refl;
  above_first = AtLeast-refl best;
  above_rest = tt;
}
max_from-IsMax best (r ∷ rs) =
    elim (Bool-cases (is_greater (cmp_versions best.tag_name r.tag_name))) [
      | inl e ↦
          let ih = max_from-IsMax best rs in
          let below = AtLeast-greater best r e in
          rw e (record {
            occurs = skip_second _ best r rs ih.occurs;
            above_first = ih.above_first;
            above_rest =
                (AtLeast-trans (max_from best rs) best r ih.above_first below, ih.above_rest);
          })
      | inr e ↦
          let ih = max_from-IsMax r rs in
          let below : AtLeast r best = unfold is_newer in e in
          rw e (record {
            occurs = inr ih.occurs;
            above_first = AtLeast-trans (max_from r rs) r best ih.above_first below;
            above_rest = (ih.above_first, ih.above_rest);
          })
    ]
  where
    skip_second : (m b r : Release) (rs : List Release) → Occurs m (b ∷ rs) → Occurs m (b ∷ r ∷ rs)
    skip_second m b r rs (inl h) = inl h
    skip_second m b r rs (inr h) = inr (inr h)

-- What a choice among releases is to be: a published one that none of the published ones is newer
-- than, or nothing where all are drafts.
abbrev pub IsNewest : List Release → Option Release → Type 0
IsNewest rs none = All (λ q. q.draft ≡ true) rs
IsNewest rs (some r) =
    (r.draft ≡ false)
    × Occurs r rs
    × All (λ q. (q.draft ≡ true) ⊎ (is_newer q.tag_name r.tag_name ≡ false)) rs

abbrev published : List Release → List Release
published = filter (λ r. not r.draft)

drop_draft : (r : Release) (rs : List Release) → r.draft ≡ true → published (r ∷ rs) ≡ published rs
drop_draft r rs e = rw e refl

keep_published :
    (r : Release) (rs : List Release) → r.draft ≡ false → published (r ∷ rs) ≡ r ∷ published rs
keep_published r rs e = rw e refl

published-none : (rs : List Release) → published rs ≡ [] → All (λ q. q.draft ≡ true) rs
published-none [] h = tt
published-none (r ∷ rs) h = (ground arith, published-none rs (ground arith))

Occurs-published :
    (m : Release) (rs : List Release) → Occurs m (published rs) → (m.draft ≡ false) × Occurs m rs
Occurs-published m [] h = elim h [ ]
Occurs-published m (r ∷ rs) h = elim (Bool-cases r.draft) [
  | inl e ↦
      let ih = Occurs-published m rs (subst (Occurs m) (drop_draft r rs e) h) in (ih.0, inr ih.1)
  | inr e ↦ elim (subst (Occurs m) (keep_published r rs e) h) [
    | inl same ↦ (rw same e, inl same)
    | inr later ↦ let ih = Occurs-published m rs later in (ih.0, inr ih.1)
  ]
]

All-published :
    (m : Release) (rs : List Release)
    → All (AtLeast m) (published rs)
    → All (λ q. (q.draft ≡ true) ⊎ AtLeast m q) rs
All-published m [] h = tt
All-published m (r ∷ rs) h = elim (Bool-cases r.draft) [
  | inl e ↦ (inl e, All-published m rs (subst (All (AtLeast m)) (drop_draft r rs e) h))
  | inr e ↦
      let (a, more) = subst (All (AtLeast m)) (keep_published r rs e) h in
      (inr a, All-published m rs more)
]

max_of-IsNewest : (rs ps : List Release) → published rs ≡ ps → IsNewest rs (max_of ps)
unfolding max_of
max_of-IsNewest rs [] e = published-none rs e
max_of-IsNewest rs (p ∷ ps) e =
    let best = max_from-IsMax p ps in
    let (out, there) =
      Occurs-published (max_from p ps) rs (subst (Occurs (max_from p ps)) (sym e) best.occurs) in
    let above : All (AtLeast (max_from p ps)) (p ∷ ps) = (best.above_first, best.above_rest) in
    (
      out,
      there,
      All-published (max_from p ps) rs (subst (All (AtLeast (max_from p ps))) (sym e) above),
    )

-- The release that is picked is published and one of those given, and none of the published ones
-- is newer, whatever texts the tags are. Nothing is picked only where all of them are drafts.
pub pick_newest-IsNewest : (rs : List Release) → IsNewest rs (pick_newest rs)
unfolding pick_newest
pick_newest-IsNewest rs = max_of-IsNewest rs (published rs) refl
