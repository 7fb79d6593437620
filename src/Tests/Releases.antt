-- ===== src/Tests/Releases.antt =====
-- The choice among releases of src/selfupdate.rs at concrete tags.
use vmfleet.Prelude.{[], ◌∷◌, true, false, ◌≡◌, refl}
use vmfleet.Prelude.Text.{Text, codes, split, first_piece}
use vmfleet.Prelude.Words.{trim, trim_start_matches}
use vmfleet.Prelude.Decimal.{parse_u64}
use vmfleet.Selfupdate.Version.{
  Release, split_once, cmp_versions, cmp_parsed, cmp_prerelease, parse_version_full, is_newer,
  pick_newest,
}
use vmfleet.Selfupdate.Version.Order.{is_newer-strict}
use vmfleet.Selfupdate.Version.Newest.{IsNewest, pick_newest-IsNewest}

abbrev candidate : Text
candidate = codes "v1.2.0-rc.1"

abbrev stable : Text
stable = codes "v1.2.0"

abbrev older : Text
older = codes "1.1.9"

stable_first : is_newer stable candidate ≡ true
unfolding is_newer cmp_versions cmp_parsed cmp_prerelease parse_version_full codes split split_once
    first_piece trim_start_matches trim parse_u64
stable_first = refl

candidate_second : is_newer candidate older ≡ true
unfolding is_newer cmp_versions cmp_parsed cmp_prerelease parse_version_full codes split split_once
    first_piece trim_start_matches trim parse_u64
candidate_second = refl

is_newer-strict_example :
    (is_newer stable older ≡ true)
    × (is_newer candidate stable ≡ false)
    × (is_newer stable stable ≡ false)
is_newer-strict_example = is_newer-strict stable candidate older stable_first candidate_second

abbrev published : Release
published = record { tag_name = stable; draft = false; assets = [] }

abbrev early : Release
early = record { tag_name = candidate; draft = false; assets = [] }

abbrev unpublished : Release
unpublished = record { tag_name = codes "v2.0.0"; draft = true; assets = [] }

pick_newest-IsNewest_example :
    IsNewest
      (unpublished ∷ early ∷ published ∷ [])
      (pick_newest (unpublished ∷ early ∷ published ∷ []))
pick_newest-IsNewest_example = pick_newest-IsNewest (unpublished ∷ early ∷ published ∷ [])
