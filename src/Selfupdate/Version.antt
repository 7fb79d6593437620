-- ===== src/Selfupdate/Version.antt =====
-- The version helpers of src/selfupdate.rs: parsing, precedence and the choice of the newest
-- release.
pub mod Order
pub mod Newest
use Prim.Native.Nat.{compare, Ordering}
use vmfleet.Prelude.{
  ℕ, List, [], ◌∷◌, ◌++◌, Bool, true, false, not, Option, none, some, and_then, if◌then◌else◌, ◌==◌,
  length, all, leb, filter,
}
use vmfleet.Prelude.Text.{Text, codes, first_piece, split}
use vmfleet.Prelude.Words.{trim, trim_start_matches}
use vmfleet.Prelude.Decimal.{parse_u64}

-- `splitn(2, sep)`: up to the first separator, and what follows it if there is one.
abbrev longer : ℕ → Text × Option Text → Text × Option Text
longer c (p, r) = (c ∷ p, r)

unfoldable pub split_once : ℕ → Text → Text × Option Text
split_once sep [] = ([], none)
split_once sep (c ∷ s) =
    let rest = longer c (split_once sep s) in if c == sep then ([], some s) else rest

pub record Version : Type 0 where
  pub major : ℕ
  pub minor : ℕ
  pub patch : ℕ
  pub pre : List Text

pre_of : Option Text → List Text
pre_of none = []
pre_of (some p) = if length p == 0 then [] else split b'.' p

-- The numbers of `MAJOR.MINOR[.PATCH]`; further ones are ignored.
triple : List Text → Option (ℕ × ℕ × ℕ)
triple [] = none
triple (major ∷ []) = none
triple (major ∷ minor ∷ []) =
    and_then (parse_u64 major) (λ x. and_then (parse_u64 minor) (λ y. some (x, y, 0)))
triple (major ∷ minor ∷ patch ∷ more) =
    and_then (parse_u64 major)
      (λ x. and_then (parse_u64 minor) (λ y. and_then (parse_u64 patch) (λ z. some (x, y, z))))

unfoldable pub parse_version_full : Text → Option Version
unfolding pre_of triple
parse_version_full s =
    let (base, rest) = split_once b'-' (first_piece b'+' (trim_start_matches b'v' (trim s))) in
    and_then (triple (split b'.' base))
      (λ t. some (record { major = t.0; minor = t.1; patch = t.2; pre = pre_of rest }))

-- `then_with`
abbrev pub then_with : Ordering → Ordering → Ordering
then_with Ordering.eq o = o
then_with Ordering.lt o = Ordering.lt
then_with Ordering.gt o = Ordering.gt

-- `str::cmp`
unfoldable pub text_compare : Text → Text → Ordering
text_compare [] [] = Ordering.eq
text_compare [] (d ∷ t) = Ordering.lt
text_compare (c ∷ s) [] = Ordering.gt
text_compare (c ∷ s) (d ∷ t) = then_with (compare c d) (text_compare s t)

-- One identifier against another, from what `parse::<u64>()` makes of them.
unfoldable pub cmp_identifier : Option ℕ → Option ℕ → Text → Text → Ordering
cmp_identifier (some m) (some n) x y = compare m n
cmp_identifier (some m) none x y = Ordering.lt
cmp_identifier none (some n) x y = Ordering.gt
cmp_identifier none none x y = text_compare x y

-- The loop over the pairs, and the comparison of the lengths behind it.
unfoldable pub cmp_identifiers : List Text → List Text → Ordering
cmp_identifiers [] [] = Ordering.eq
cmp_identifiers [] (y ∷ ys) = Ordering.lt
cmp_identifiers (x ∷ xs) [] = Ordering.gt
cmp_identifiers (x ∷ xs) (y ∷ ys) =
    then_with (cmp_identifier (parse_u64 x) (parse_u64 y) x y) (cmp_identifiers xs ys)

unfoldable pub cmp_prerelease : List Text → List Text → Ordering
cmp_prerelease [] [] = Ordering.eq
cmp_prerelease [] (y ∷ ys) = Ordering.gt
cmp_prerelease (x ∷ xs) [] = Ordering.lt
cmp_prerelease (x ∷ xs) (y ∷ ys) = cmp_identifiers (x ∷ xs) (y ∷ ys)

unfoldable pub cmp_parsed : Option Version → Option Version → Ordering
cmp_parsed (some a) (some b) = then_with (compare a.major b.major) (
    then_with (compare a.minor b.minor)
      (then_with (compare a.patch b.patch) (cmp_prerelease a.pre b.pre)))
cmp_parsed (some a) none = Ordering.gt
cmp_parsed none (some b) = Ordering.lt
cmp_parsed none none = Ordering.eq

unfoldable pub cmp_versions : Text → Text → Ordering
cmp_versions a b = cmp_parsed (parse_version_full a) (parse_version_full b)

abbrev pub is_greater : Ordering → Bool
is_greater Ordering.gt = true
is_greater Ordering.lt = false
is_greater Ordering.eq = false

unfoldable pub is_newer : Text → Text → Bool
is_newer candidate current = is_greater (cmp_versions candidate current)

pub record Asset : Type 0 where
  pub name : Text
  pub browser_download_url : Text
  pub url : Text

pub record Release : Type 0 where
  pub tag_name : Text
  pub draft : Bool
  pub assets : List Asset

-- `max_by`: of two equal elements the later one.
unfoldable pub max_from : Release → List Release → Release
max_from best [] = best
max_from best (r ∷ rs) =
    max_from (if is_greater (cmp_versions best.tag_name r.tag_name) then best else r) rs

max_of : List Release → Option Release
unfolding max_from
max_of [] = none
max_of (r ∷ rs) = some (max_from r rs)

unfoldable pub pick_newest : List Release → Option Release
unfolding max_of
pick_newest releases = max_of (filter (λ r. not r.draft) releases)
