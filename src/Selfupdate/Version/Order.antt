-- ===== src/Selfupdate/Version/Order.antt =====
-- The precedence of versions in src/selfupdate.rs is an order.
use Prim.Native.Nat.{compare, Ordering}
use vmfleet.Prelude.{ℕ, List, [], ◌∷◌, true, false, Option, none, some, ◌≡◌, refl, arith}
use vmfleet.Prelude.Text.{Text}
use vmfleet.Prelude.Decimal.{parse_u64}
use vmfleet.Selfupdate.Version.{
  Version, then_with, text_compare, cmp_identifier, cmp_identifiers, cmp_prerelease, cmp_parsed,
  cmp_versions, is_greater, is_newer, parse_version_full,
}

-- `Ordering::reverse`
abbrev pub flip : Ordering → Ordering
flip Ordering.lt = Ordering.gt
flip Ordering.eq = Ordering.eq
flip Ordering.gt = Ordering.lt

text_compare-flip : (s t : Text) → text_compare t s ≡ flip (text_compare s t)
unfolding text_compare
text_compare-flip [] [] = refl
text_compare-flip [] (d ∷ t) = refl
text_compare-flip (c ∷ s) [] = refl
text_compare-flip (c ∷ s) (d ∷ t) = ground (arith, text_compare-flip s t)

cmp_identifier-flip :
    (m n : Option ℕ) (x y : Text) → cmp_identifier n m y x ≡ flip (cmp_identifier m n x y)
unfolding cmp_identifier
cmp_identifier-flip (some m) (some n) x y = ground arith
cmp_identifier-flip (some m) none x y = refl
cmp_identifier-flip none (some n) x y = refl
cmp_identifier-flip none none x y = text_compare-flip x y

cmp_identifiers-flip : (xs ys : List Text) → cmp_identifiers ys xs ≡ flip (cmp_identifiers xs ys)
unfolding cmp_identifiers
cmp_identifiers-flip [] [] = refl
cmp_identifiers-flip [] (y ∷ ys) = refl
cmp_identifiers-flip (x ∷ xs) [] = refl
cmp_identifiers-flip (x ∷ xs) (y ∷ ys) =
    ground (arith, cmp_identifier-flip (parse_u64 x) (parse_u64 y) x y, cmp_identifiers-flip xs ys)

cmp_prerelease-flip : (xs ys : List Text) → cmp_prerelease ys xs ≡ flip (cmp_prerelease xs ys)
unfolding cmp_prerelease
cmp_prerelease-flip [] [] = refl
cmp_prerelease-flip [] (y ∷ ys) = refl
cmp_prerelease-flip (x ∷ xs) [] = refl
cmp_prerelease-flip (x ∷ xs) (y ∷ ys) = cmp_identifiers-flip (x ∷ xs) (y ∷ ys)

cmp_parsed-flip : (a b : Option Version) → cmp_parsed b a ≡ flip (cmp_parsed a b)
unfolding cmp_parsed
cmp_parsed-flip (some a) (some b) = ground (arith, cmp_prerelease-flip a.pre b.pre)
cmp_parsed-flip (some a) none = refl
cmp_parsed-flip none (some b) = refl
cmp_parsed-flip none none = refl

-- Comparing two versions the other way round gives the opposite answer.
pub cmp_versions-flip : (a b : Text) → cmp_versions b a ≡ flip (cmp_versions a b)
unfolding cmp_versions
cmp_versions-flip a b = cmp_parsed-flip (parse_version_full a) (parse_version_full b)

-- What two comparisons in a row say of the comparison of their ends.
abbrev pub Chain : Ordering → Ordering → Ordering → Type 0
Chain Ordering.eq o r = r ≡ o
Chain Ordering.lt Ordering.gt r = Unit
Chain Ordering.lt Ordering.lt r = r ≡ Ordering.lt
Chain Ordering.lt Ordering.eq r = r ≡ Ordering.lt
Chain Ordering.gt Ordering.lt r = Unit
Chain Ordering.gt Ordering.gt r = r ≡ Ordering.gt
Chain Ordering.gt Ordering.eq r = r ≡ Ordering.gt

Chain-lt_right : (o : Ordering) → Chain o Ordering.lt Ordering.lt
Chain-lt_right Ordering.lt = refl
Chain-lt_right Ordering.eq = refl
Chain-lt_right Ordering.gt = tt

Chain-gt_right : (o : Ordering) → Chain o Ordering.gt Ordering.gt
Chain-gt_right Ordering.lt = tt
Chain-gt_right Ordering.eq = refl
Chain-gt_right Ordering.gt = refl

Chain-lt_left : (o : Ordering) → Chain Ordering.lt o Ordering.lt
Chain-lt_left Ordering.lt = refl
Chain-lt_left Ordering.eq = refl
Chain-lt_left Ordering.gt = tt

Chain-gt_left : (o : Ordering) → Chain Ordering.gt o Ordering.gt
Chain-gt_left Ordering.lt = tt
Chain-gt_left Ordering.eq = refl
Chain-gt_left Ordering.gt = refl

Chain-then_with :
    (a b c a' b' c' : Ordering)
    → Chain a b c
    → Chain a' b' c'
    → Chain (then_with a a') (then_with b b') (then_with c c')
Chain-then_with Ordering.eq Ordering.eq c a' b' c' h k = rw h k
Chain-then_with Ordering.eq Ordering.lt c a' b' c' h k = rw h (Chain-lt_right a')
Chain-then_with Ordering.eq Ordering.gt c a' b' c' h k = rw h (Chain-gt_right a')
Chain-then_with Ordering.lt Ordering.eq c a' b' c' h k = rw h (Chain-lt_left b')
Chain-then_with Ordering.lt Ordering.lt c a' b' c' h k = rw h refl
Chain-then_with Ordering.lt Ordering.gt c a' b' c' h k = tt
Chain-then_with Ordering.gt Ordering.eq c a' b' c' h k = rw h (Chain-gt_left b')
Chain-then_with Ordering.gt Ordering.lt c a' b' c' h k = tt
Chain-then_with Ordering.gt Ordering.gt c a' b' c' h k = rw h refl

Chain-compare_of :
    (a b c : ℕ) (x y z : Ordering)
    → compare a b ≡ x
    → compare b c ≡ y
    → compare a c ≡ z
    → Chain x y z
Chain-compare_of a b c Ordering.eq Ordering.eq z h k l = ground arith
Chain-compare_of a b c Ordering.eq Ordering.lt z h k l = ground arith
Chain-compare_of a b c Ordering.eq Ordering.gt z h k l = ground arith
Chain-compare_of a b c Ordering.lt Ordering.eq z h k l = ground arith
Chain-compare_of a b c Ordering.lt Ordering.lt z h k l = ground arith
Chain-compare_of a b c Ordering.lt Ordering.gt z h k l = tt
Chain-compare_of a b c Ordering.gt Ordering.eq z h k l = ground arith
Chain-compare_of a b c Ordering.gt Ordering.lt z h k l = tt
Chain-compare_of a b c Ordering.gt Ordering.gt z h k l = ground arith

Chain-compare : (a b c : ℕ) → Chain (compare a b) (compare b c) (compare a c)
Chain-compare a b c = Chain-compare_of a b c _ _ _ refl refl refl

Chain-text_compare : (s t u : Text) → Chain (text_compare s t) (text_compare t u) (text_compare s u)
unfolding text_compare
Chain-text_compare [] [] u = refl
Chain-text_compare [] (d ∷ t) [] = tt
Chain-text_compare [] (d ∷ t) (e ∷ u) = Chain-lt_left (text_compare (d ∷ t) (e ∷ u))
Chain-text_compare (c ∷ s) [] [] = refl
Chain-text_compare (c ∷ s) [] (e ∷ u) = tt
Chain-text_compare (c ∷ s) (d ∷ t) [] = Chain-gt_right (text_compare (c ∷ s) (d ∷ t))
Chain-text_compare (c ∷ s) (d ∷ t) (e ∷ u) =
    Chain-then_with _ _ _ _ _ _ (Chain-compare c d e) (Chain-text_compare s t u)

Chain-cmp_identifier :
    (l m n : Option ℕ) (x y z : Text)
    → Chain (cmp_identifier l m x y) (cmp_identifier m n y z) (cmp_identifier l n x z)
unfolding cmp_identifier
Chain-cmp_identifier (some l) (some m) (some n) x y z = Chain-compare l m n
Chain-cmp_identifier (some l) (some m) none x y z = Chain-lt_right (compare l m)
Chain-cmp_identifier (some l) none (some n) x y z = tt
Chain-cmp_identifier (some l) none none x y z = Chain-lt_left (text_compare y z)
Chain-cmp_identifier none (some m) (some n) x y z = Chain-gt_left (compare m n)
Chain-cmp_identifier none (some m) none x y z = tt
Chain-cmp_identifier none none (some n) x y z = Chain-gt_right (text_compare x y)
Chain-cmp_identifier none none none x y z = Chain-text_compare x y z

Chain-cmp_identifiers :
    (xs ys zs : List Text)
    → Chain (cmp_identifiers xs ys) (cmp_identifiers ys zs) (cmp_identifiers xs zs)
unfolding cmp_identifiers
Chain-cmp_identifiers [] [] zs = refl
Chain-cmp_identifiers [] (y ∷ ys) [] = tt
Chain-cmp_identifiers [] (y ∷ ys) (z ∷ zs) = Chain-lt_left (cmp_identifiers (y ∷ ys) (z ∷ zs))
Chain-cmp_identifiers (x ∷ xs) [] [] = refl
Chain-cmp_identifiers (x ∷ xs) [] (z ∷ zs) = tt
Chain-cmp_identifiers (x ∷ xs) (y ∷ ys) [] = Chain-gt_right (cmp_identifiers (x ∷ xs) (y ∷ ys))
Chain-cmp_identifiers (x ∷ xs) (y ∷ ys) (z ∷ zs) =
    Chain-then_with _ _ _ _ _ _
      (Chain-cmp_identifier (parse_u64 x) (parse_u64 y) (parse_u64 z) x y z)
      (Chain-cmp_identifiers xs ys zs)

Chain-cmp_prerelease :
    (xs ys zs : List Text)
    → Chain (cmp_prerelease xs ys) (cmp_prerelease ys zs) (cmp_prerelease xs zs)
unfolding cmp_prerelease
Chain-cmp_prerelease [] [] zs = refl
Chain-cmp_prerelease [] (y ∷ ys) [] = tt
Chain-cmp_prerelease [] (y ∷ ys) (z ∷ zs) = Chain-gt_left (cmp_identifiers (y ∷ ys) (z ∷ zs))
Chain-cmp_prerelease (x ∷ xs) [] [] = refl
Chain-cmp_prerelease (x ∷ xs) [] (z ∷ zs) = tt
Chain-cmp_prerelease (x ∷ xs) (y ∷ ys) [] = Chain-lt_right (cmp_identifiers (x ∷ xs) (y ∷ ys))
Chain-cmp_prerelease (x ∷ xs) (y ∷ ys) (z ∷ zs) = Chain-cmp_identifiers (x ∷ xs) (y ∷ ys) (z ∷ zs)

Chain-cmp_parsed :
    (a b c : Option Version) → Chain (cmp_parsed a b) (cmp_parsed b c) (cmp_parsed a c)
unfolding cmp_parsed
Chain-cmp_parsed none none c = refl
Chain-cmp_parsed none (some b) none = tt
Chain-cmp_parsed none (some b) (some c) = Chain-lt_left (cmp_parsed (some b) (some c))
Chain-cmp_parsed (some a) none none = refl
Chain-cmp_parsed (some a) none (some c) = tt
Chain-cmp_parsed (some a) (some b) none = Chain-gt_right (cmp_parsed (some a) (some b))
Chain-cmp_parsed (some a) (some b) (some c) =
    Chain-then_with _ _ _ _ _ _ (Chain-compare a.major b.major c.major) (
      Chain-then_with _ _ _ _ _ _ (Chain-compare a.minor b.minor c.minor) (
        Chain-then_with _ _ _ _ _ _ (Chain-compare a.patch b.patch c.patch)
          (Chain-cmp_prerelease a.pre b.pre c.pre)))

-- The comparison of versions is transitive: equal versions compare alike with a third, and two
-- comparisons the same way give a third that way.
pub Chain-cmp_versions :
    (a b c : Text) → Chain (cmp_versions a b) (cmp_versions b c) (cmp_versions a c)
unfolding cmp_versions
Chain-cmp_versions a b c =
    Chain-cmp_parsed (parse_version_full a) (parse_version_full b) (parse_version_full c)

self_flip : (o : Ordering) → o ≡ flip o → o ≡ Ordering.eq
self_flip Ordering.lt h = cc
self_flip Ordering.eq h = refl
self_flip Ordering.gt h = cc

pub cmp_versions_refl : (a : Text) → cmp_versions a a ≡ Ordering.eq
cmp_versions_refl a = self_flip (cmp_versions a a) (cmp_versions-flip a a)

newer_trans :
    (x y z : Ordering)
    → Chain x y z
    → is_greater x ≡ true
    → is_greater y ≡ true
    → is_greater z ≡ true
newer_trans Ordering.gt Ordering.gt z c h k = rw c refl
newer_trans Ordering.gt Ordering.lt z c h k = cc
newer_trans Ordering.gt Ordering.eq z c h k = cc
newer_trans Ordering.lt y z c h k = cc
newer_trans Ordering.eq y z c h k = cc

-- "Newer" is a strict order of all texts, version numbers or not: what is newer than a newer text
-- is newer, of two texts at most one is newer than the other, and no text is newer than itself.
pub is_newer-strict :
    (a b c : Text)
    → is_newer a b ≡ true
    → is_newer b c ≡ true
    → (is_newer a c ≡ true) × (is_newer b a ≡ false) × (is_newer a a ≡ false)
unfolding is_newer
is_newer-strict a b c h k = (
  newer_trans _ _ _ (Chain-cmp_versions a b c) h k,
  ground (arith, cmp_versions-flip a b),
  rw (cmp_versions_refl a),
)
