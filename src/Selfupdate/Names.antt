-- ===== src/Selfupdate/Names.antt =====
-- The helpers on texts of src/selfupdate.rs: the repository of a URL, the name of an asset, the
-- digest of a checksum file, and the paths of the staged files.
pub mod Digest
use mathlib.Core.List.{reverse}
use vmfleet.Prelude.{
  ℕ, zero, suc, ◌+◌, ◌++◌, [], ◌∷◌, Bool, true, false, ◌&&◌, ◌||◌, List, Option, none, some, leb,
  ltb, ◌==◌, length, all, any, and_then, if◌then◌else◌, map,
}
use vmfleet.Prelude.Text.{Text, codes, strip_prefix, strip_suffix, split, text_eq, starts_with}
use vmfleet.Prelude.Words.{trim, trim_end_matches, split_whitespace}
use vmfleet.Prelude.Decimal.{is_digit}
use vmfleet.Selfupdate.Version.{split_once}

-- `or_else`
abbrev or_else : {A : Type 0} → Option A → Option A → Option A
or_else none o = o
or_else (some a) o = some a

-- `trim_end_matches` with a text: each round takes one copy away.
trim_end_copies : ℕ → Text → Text → Text
trim_end_copies zero p s = s
trim_end_copies (suc n) p s = elim (strip_suffix p s) [
  | none ↦ s
  | some rest ↦ trim_end_copies n p rest
]

unfoldable pub is_nil : Text → Bool
is_nil [] = true
is_nil (c ∷ s) = false

named_repo : Text × Option Text → Option (Text × Text)
unfolding is_nil
named_repo (owner, none) = none
named_repo (owner, some repo) =
    if is_nil owner || is_nil repo || any (λ c. c == b'/') repo then none else some (owner, repo)

repo_path : Text → Option Text
repo_path url = or_else (strip_prefix (codes "https://github.com/") url) (
    or_else (strip_prefix (codes "http://github.com/") url)
      (strip_prefix (codes "git@github.com:") url))

unfoldable pub parse_repo_url : Text → Option (Text × Text)
unfolding named_repo repo_path trim_end_copies
parse_repo_url url = and_then (repo_path (trim url)) (λ rest.
    let path = trim_end_matches b'/' rest in
    named_repo (split_once b'/' (trim_end_copies (length path) (codes ".git") path)))

unfoldable pub asset_name : Text → Text → Text
asset_name version target = codes "vmfleet-" ++ (version ++ b'-' ∷ (target ++ codes ".tar.gz"))

-- `char::is_ascii_hexdigit`, `char::to_ascii_lowercase` and `eq_ignore_ascii_case`
unfoldable pub is_hex : ℕ → Bool
is_hex c = is_digit c || (leb b'a' c && leb c b'f') || (leb b'A' c && leb c b'F')

unfoldable pub lower : ℕ → ℕ
lower c = if leb b'A' c && leb c b'Z' then c + 32 else c

unfoldable pub same_letters : Text → Text → Bool
same_letters s t = text_eq (map lower s) (map lower t)

-- The length is that of the text in bytes where all of it is ASCII, as is a text of digits.
digest_of : List Text → Option Text
digest_of [] = none
digest_of (word ∷ words) =
    let t = trim word in if length t == 64 && all is_hex t then some (map lower t) else none

unfoldable pub parse_sha256 : Text → Option Text
unfolding digest_of
parse_sha256 body = digest_of (split_whitespace body)

-- What stands after the last of some code points, and before it.
after_last : ℕ → Text → Text
after_last c s = reverse (split_once c (reverse s)).0

abbrev or_nil : Option Text → Text
or_nil none = []
or_nil (some s) = s

before_last : ℕ → Text → Text
before_last c s = reverse (or_nil (split_once c (reverse s)).1)

-- `Path::parent` of a program's path, which has no slash at its end.
unfoldable pub exe_dir : Text → Text
unfolding before_last
exe_dir exe =
    let dir = before_last b'/' exe in
    if text_eq dir [] && starts_with (codes "/") exe then codes "/" else dir

-- `with_extension("part")` of a path whose name has an extension.
unfoldable pub part_of : Text → Text
unfolding before_last
part_of path = before_last b'.' path ++ codes ".part"

-- `Path::file_name`: the last component that is not `.`, unless it is `..`.
abbrev is_component : Text → Bool
is_component s = if text_eq s [] then false else if text_eq s (codes ".") then false else true

last_component : Option Text → List Text → Option Text
last_component found [] = found
last_component found (p ∷ ps) = last_component (if is_component p then some p else found) ps

name_component : Option Text → Option Text
name_component none = none
name_component (some p) = if text_eq p (codes "..") then none else some p

unfoldable pub file_name : Text → Option Text
unfolding last_component name_component
file_name path = name_component (last_component none (split b'/' path))
