-- ===== src/Selfupdate/Install/Gated.antt =====
-- What the update of src/selfupdate.rs does to the host, and what has to be true before.
pub mod Checks
pub mod Stages
pub mod Updates
use vmfleet.Prelude.{
  ℕ, ap, ◌++◌, List, [], ◌∷◌, Bool, true, false, not, Option, none, some, Result, ok, err, ◌≡◌, ◌⊎◌,
  inl, inr, refl, arith, if◌then◌else◌, Bool-cases, Option-cases,
}
use vmfleet.Prelude.Text.{Text, codes}
use vmfleet.Prelude.Act.{proceed, proceed-eq-ok, pure, fail, try_, if_call-after}
use vmfleet.World.{
  Response, System, Io, History, Request, Failure, http, sleep, read_file, write_file, rename_file,
  remove_file, set_mode, replace_self, path_exists, ask_user, command, change, exists, read_text,
  io_failed, bad_release, run, Extends, unchanged, asked, Extends-trans, Extends-proceed,
  Extends-proceed_by,
}
use vmfleet.Config.{Config}
use vmfleet.Config.Validate.{LoadError, load}
use vmfleet.Selfupdate.Version.{Asset, Release}
use vmfleet.Selfupdate.Names.{parse_repo_url, asset_name, same_letters, exe_dir, part_of}
use vmfleet.Selfupdate.Download.{decoded, download_asset, fetch_sha256, fetch_release, done_or}
use vmfleet.Selfupdate.Download.Asks.{
  IsFetched, get, decoded-stays, done_or-Keeps, download_asset-Keeps, fetch_sha256-Keeps,
  fetch_release-Keeps,
}
use vmfleet.Selfupdate.Choice.{Opts, Build, latest_of, wants, named_asset, find_entry}
use vmfleet.Selfupdate.Install.{
  config_token, token_of_file, file_token, token_or_file, best_effort_token, hashed, compared,
  verify, unpacked, extract_binary, make_executable, upgrade_if, post_upgrade, remove_staged,
  swap_in, install_release, staged, stage, staged_if, agreed, confirm, says_yes, update_to,
  self_update,
}

module _ {F : Type 0} (sys : System) (build : Build F) (env : Text → Option Text) (opts : Opts)
    (cfg_path : Text) where
  -- The assets and the staged files of a release.
  abbrev pub archive_of : Release → Option Asset
  archive_of rel = named_asset (asset_name (latest_of rel) build.target) rel.assets

  abbrev pub checksum_of : Release → Option Asset
  checksum_of rel =
      named_asset (asset_name (latest_of rel) build.target ++ codes ".sha256") rel.assets

  abbrev pub tar_of : Text → Release → Text
  unfolding staged
  tar_of exe rel = staged sys build env (exe_dir exe) (latest_of rel) (codes ".tar.gz")

  abbrev pub bin_of : Text → Release → Text
  unfolding staged
  bin_of exe rel = staged sys build env (exe_dir exe) (latest_of rel) (codes ".bin")

  abbrev pub prompt_of : Release → Text
  prompt_of rel =
      codes "update " ++ (build.version ++ (codes " -> " ++ (latest_of rel ++ codes "?")))

  -- A release that was fetched, that is newer or pinned, and that the user agreed to install.
  pub record IsAgreed (rel : Release) : Type 0 where
    pub fetched :
        (owner repo : Text) × (auth : Option Text) × (h : History) × ((fetch_release sys build.json
            owner repo auth opts.tag opts.allow_prerelease h).0
          ≡ ok rel)
    pub wanted : wants opts (latest_of rel) build.version ≡ true
    pub not_checking : opts.check ≡ false
    pub consent :
        (opts.yes ≡ true)
        ⊎ ((h : History) × (sys.on_ask (ask_user (prompt_of rel) ∷ h) ≡ some true))

  -- From the first history to the second one the digest that the release states was fetched, and the
  -- archive read and found to have it; where the release states none, nothing was done.
  abbrev pub Verified : Option Asset → Option Text → Text → History → History → Type 0
  Verified none auth tar h h' = h' ≡ h
  Verified (some sha) auth tar h h' =
      (before : History) × (want content : Text) × (fetch_sha256 sys sha auth h ≡ (ok want, before))
      × (sys.on_read (read_file tar ∷ before) ≡ some content)
      × (same_letters want (build.sha256 content) ≡ true)
      × (h' ≡ read_file tar ∷ before)

  -- The archive of the release was downloaded, then verified, and then read for the program in it.
  pub record IsUnpacked (exe : Text) (rel : Release) (program : Text) (end : History) : Type 0 where
    pub asset : Asset
    pub auth : Option Text
    pub start : History
    pub at_hand : History
    pub checked : History
    pub packed : Text
    pub entries : List (Option (Text × Text))
    pub is_archive : archive_of rel ≡ some asset
    pub downloaded : download_asset sys asset auth (tar_of exe rel) start ≡ (ok tt, at_hand)
    pub verified : Verified (checksum_of rel) auth (tar_of exe rel) at_hand checked
    pub read_again : sys.on_read (read_file (tar_of exe rel) ∷ checked) ≡ some packed
    pub unpacked_as : build.entries packed ≡ some entries
    pub contained : find_entry (codes "vmfleet") entries ≡ some program
    pub ends : end ≡ read_file (tar_of exe rel) ∷ checked

  -- And the program was written and made executable, each with success.
  pub record IsInstallable (exe : Text) (rel : Release) : Type 0 where
    pub program : Text
    pub before : History
    pub unpacked : IsUnpacked exe rel program before
    pub written : sys.on_write (write_file (bin_of exe rel) program ∷ before) ≡ true
    pub executable :
        sys.on_write (set_mode (bin_of exe rel) ∷ write_file (bin_of exe rel) program ∷ before)
        ≡ true

  -- The files that the update of a release stages.
  pub data IsStaged (exe : Text) (rel : Release) : Text → Type 0 where
    tar : IsStaged exe rel (tar_of exe rel)
    tar_part : IsStaged exe rel (part_of (tar_of exe rel))
    bin : IsStaged exe rel (bin_of exe rel)
    bin_part : IsStaged exe rel (part_of (bin_of exe rel))

  -- The requests of an update.
  pub data Does : Request → Type 0 where
    pauses : (n : ℕ) → Does (sleep n)
    reads : (path : Text) → Does (read_file path)
    looks_for : (path : Text) → Does (path_exists path)
    asks : (prompt : Text) → Does (ask_user prompt)
    -- GitHub's own API may get the token.
    looks_up :
        (rest : Text) (auth : Option Text)
        → Does (get (codes "https://api.github.com/repos/" ++ rest) auth)
    -- A public URL never does.
    downloads : (url : Text) → Does (get url none)
    -- The URL of an asset's API does, where the release was agreed to.
    downloads_privately :
        (rel : Release)
        → IsAgreed rel
        → (name : Text) (a : Asset) → named_asset name rel.assets ≡ some a
        → (auth : Option Text) → Does (get a.url auth)
    -- The archive is what a server sent, and the staged program what was unpacked from it.
    writes_archive :
        (rel : Release) (exe : Text) (r : Response)
        → IsAgreed rel
        → IsFetched sys r
        → Does (write_file (part_of (tar_of exe rel)) r.body)
    writes_program :
        (rel : Release) (exe program : Text) (before : History)
        → IsAgreed rel
        → IsUnpacked exe rel program before
        → Does (write_file (bin_of exe rel) program)
    renames :
        (rel : Release) (exe path path' : Text)
        → IsAgreed rel
        → IsStaged exe rel path
        → IsStaged exe rel path'
        → Does (rename_file path path')
    removes :
        (rel : Release) (exe path : Text)
        → IsAgreed rel
        → IsStaged exe rel path
        → Does (remove_file path)
    makes_executable :
        (rel : Release) (exe path : Text)
        → IsAgreed rel
        → IsStaged exe rel path
        → Does (set_mode path)
    -- The running program is replaced by one that was downloaded, verified, unpacked and staged, and its successor started after that.
    replaces :
        (rel : Release) (exe : Text)
        → IsAgreed rel
        → IsInstallable exe rel
        → Does (replace_self (bin_of exe rel))
    upgrades :
        (rel : Release) (exe : Text) (args : List Text)
        → IsAgreed rel
        → IsInstallable exe rel
        → build.exe ≡ some exe
        → Does (command exe args none)
