-- ===== src/Selfupdate/Choice.antt =====
-- What an update of src/selfupdate.rs starts from, and its choices: the options, what the build
-- embeds, the test for a newer version, and the files that it picks.
use vmfleet.Prelude.{
  List, [], ◌∷◌, Bool, true, false, ◌||◌, Option, none, some, if◌then◌else◌, find,
}
use vmfleet.Prelude.Text.{Text, text_eq}
use vmfleet.Prelude.Words.{trim, trim_start_matches}
use vmfleet.Config.{Config}
use vmfleet.Selfupdate.Version.{Asset, Release, is_newer}
use vmfleet.Selfupdate.Names.{file_name, is_nil}
use vmfleet.Selfupdate.Download.{ReleaseJson}

pub record Opts : Type 0 where
  pub check : Bool
  pub tag : Option Text
  pub allow_prerelease : Bool
  pub yes : Bool
  pub no_restart : Bool

-- What the build embeds (`CARGO_PKG_REPOSITORY`, `CARGO_PKG_VERSION`, `VMFLEET_TARGET`), the path
-- of the running program, and the libraries: serde, `sha2`, and `tar` with `flate2`, which find the
-- entries of an archive by their paths, each of which may be broken.
pub record Build (F : Type 0) : Type 0 where
  pub repository : Text
  pub version : Text
  pub target : Text
  pub exe : Option Text
  pub json : ReleaseJson
  pub config : Text → Option (Config F)
  pub sha256 : Text → Text
  pub entries : Text → Option (List (Option (Text × Text)))

-- The version of a release: its tag without `v`.
unfoldable pub latest_of : Release → Text
latest_of rel = trim_start_matches b'v' rel.tag_name

is_pinned : Option Text → Bool
is_pinned none = false
is_pinned (some tag) = true

-- The tests before an update: a pinned release, or a newer one.
unfoldable pub wants : Opts → Text → Text → Bool
unfolding is_pinned
wants opts latest version = is_pinned opts.tag || is_newer latest version

unfoldable pub named_asset : Text → List Asset → Option Asset
named_asset name assets = find (λ a. text_eq a.name name) assets

-- The content of the first entry of that name, before any broken one.
named_entry : Text → Option Text → Bool
named_entry member none = false
named_entry member (some name) = text_eq name member

unfoldable pub find_entry : Text → List (Option (Text × Text)) → Option Text
unfolding named_entry
find_entry member [] = none
find_entry member (none ∷ entries) = none
find_entry member (some (path, content) ∷ entries) =
    let rest = find_entry member entries in
    if named_entry member (file_name path) then some content else rest

unfoldable pub not_blank : Text → Option Text
unfolding is_nil
not_blank t = if is_nil (trim t) then none else some (trim t)
