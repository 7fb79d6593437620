-- ===== src/Selfupdate/Install.antt =====
-- `run` of src/selfupdate.rs: the update of the running program, with the guards before it, the
-- checksum, and what follows it; and what the supervisor uses of the module.
pub mod Gated
use vmfleet.Prelude.{
  ℕ, zero, suc, ◌++◌, List, [], ◌∷◌, Bool, true, false, ◌||◌, not, Option, none, some, Result, ok,
  err, if◌then◌else◌, find, and_then, to_option,
}
use vmfleet.Prelude.Text.{Text, codes, text_eq}
use vmfleet.Prelude.Words.{trim, trim_start_matches}
use vmfleet.Prelude.Act.{◌>>=◌, ◌>>◌, pure, fail, try_, lift}
use vmfleet.World.{
  System, Io, Total, Failure, History, bad_release, bad_checksum, bad_archive, io_failed, change,
  exists, ask, read_text, write_file, remove_file, set_mode, replace_self, run,
}
use vmfleet.Paths.{join}
use vmfleet.Config.{Config, ConfigError}
use vmfleet.Config.Validate.{LoadError, load, token}
use vmfleet.Selfupdate.Version.{Asset, Release, is_newer}
use vmfleet.Selfupdate.Names.{
  parse_repo_url, asset_name, same_letters, exe_dir, part_of, file_name, is_nil,
}
use vmfleet.Selfupdate.Download.{
  ReleaseJson, decoded, download_asset, fetch_sha256, fetch_release, done_or,
}
use vmfleet.Selfupdate.Choice.{Opts, Build, latest_of, wants, named_asset, find_entry, not_blank}

-- `unwrap_or(false)`
abbrev says_yes : Option Bool → Bool
says_yes none = false
says_yes (some b) = b

module _ {F : Type 0} (sys : System) (build : Build F) (env : Text → Option Text) where
  -- `best_effort_token`: the variable, else the token of a configuration that loads.
  config_token : Result LoadError (Config F) → Io (Option Text)
  unfolding not_blank
  config_token (err e) = pure none
  config_token (ok cfg) = do
    text ← read_text sys cfg.github.token_file
    pure (and_then (to_option (token cfg env (λ _. text))) not_blank)

  token_of_file : Text → Bool → Io (Option Text)
  unfolding config_token
  token_of_file cfg_path false = pure none
  token_of_file cfg_path true = do
    text ← read_text sys cfg_path
    config_token (load env (λ _. text) build.config cfg_path)

  file_token : Text → Io (Option Text)
  unfolding token_of_file
  file_token cfg_path = exists sys cfg_path >>= token_of_file cfg_path

  token_or_file : Text → Option Text → Io (Option Text)
  unfolding file_token
  token_or_file cfg_path (some t) = pure (some t)
  token_or_file cfg_path none = file_token cfg_path

  unfoldable pub best_effort_token : Text → Io (Option Text)
  unfolding token_or_file not_blank
  best_effort_token cfg_path =
      token_or_file cfg_path (and_then (env (codes "VMFLEET_TOKEN")) not_blank)

  compared : Text → Text → Io (Unit {0})
  compared want got = if same_letters want got then pure tt else fail bad_checksum

  hashed : Text → Option Text → Io (Unit {0})
  unfolding compared
  hashed want none = fail io_failed
  hashed want (some content) = compared want (build.sha256 content)

  -- The checksum of the archive, where the release has one.
  unfoldable pub verify : Option Asset → Option Text → Text → Io (Unit {0})
  unfolding hashed
  verify none auth tar = pure tt
  verify (some sha) auth tar = do
    want ← fetch_sha256 sys sha auth
    content ← read_text sys tar
    hashed want content

  unfoldable pub unpacked : Text → Option (List (Option (Text × Text))) → Io Text
  unfolding find_entry
  unpacked member none = fail bad_archive
  unpacked member (some entries) = decoded (find_entry member entries) bad_archive

  unfoldable pub extract_binary : Text → Text → Text → Io (Unit {0})
  unfolding unpacked
  extract_binary tar member dest = do
    text ← read_text sys tar
    packed ← decoded text io_failed
    content ← unpacked member (build.entries packed)
    written ← change sys (write_file dest content)
    done_or sys io_failed written

  unfoldable pub make_executable : Text → Io (Unit {0})
  make_executable path = do set ← change sys (set_mode path); done_or sys io_failed set

  -- The new program is run for its migrations; how that ends is only reported.
  upgrade_if : Text → Text → Bool → Io (Unit {0})
  upgrade_if exe cfg_path false = pure tt
  upgrade_if exe cfg_path true = do
    try_ (run sys exe (codes "--config" ∷ cfg_path ∷ codes "install" ∷ codes "--upgrade" ∷ []) none)
    pure tt

  unfoldable pub post_upgrade : Text → Text → Io (Unit {0})
  unfolding upgrade_if
  post_upgrade exe cfg_path = exists sys cfg_path >>= upgrade_if exe cfg_path

  -- `TempCleanup`
  abbrev pub remove_staged : Text → Io (Unit {0})
  remove_staged path = do
    change sys (remove_file path)
    change sys (remove_file (part_of path))
    pure tt

  abbrev pub clean_up_after :
      Text → Text → Result Failure (Unit {0}) × History → Result Failure (Unit {0}) × History
  clean_up_after tar bin (r, h) = (r, ((remove_staged tar >> remove_staged bin) h).1)

  -- The staged program takes the place of the running one.
  unfoldable pub swap_in : Opts → Text → Text → Text → Io (Unit {0})
  unfolding make_executable post_upgrade
  swap_in opts cfg_path exe bin = do
    make_executable bin
    replaced ← change sys (replace_self bin)
    done_or sys io_failed replaced
    if opts.no_restart then pure tt else post_upgrade exe cfg_path

  -- What is done between the staging of files and their removal.
  unfoldable pub install_release :
      Opts → Text → Text → Option Text → Asset → Option Asset → Text → Text → Io (Unit {0})
  unfolding verify extract_binary swap_in
  install_release opts cfg_path exe auth asset sha tar bin = do
    download_asset sys asset auth tar
    verify sha auth tar
    extract_binary tar (codes "vmfleet") bin
    swap_in opts cfg_path exe bin

  staged : Text → Text → Text → Text
  staged dir latest extension = join dir (codes ".vmfleet-update-" ++ (latest ++ extension))

  unfoldable pub stage :
      Opts → Text → Option Text → Release → Option Asset → Option Text → Io (Unit {0})
  unfolding install_release staged
  stage opts cfg_path auth rel none exe h = (err bad_release, h)
  stage opts cfg_path auth rel (some asset) none h = (err io_failed, h)
  stage opts cfg_path auth rel (some asset) (some exe) h =
      let latest = latest_of rel in
      let sha = named_asset (asset_name latest build.target ++ codes ".sha256") rel.assets in
      let tar = staged (exe_dir exe) latest (codes ".tar.gz") in
      let bin = staged (exe_dir exe) latest (codes ".bin") in
      clean_up_after tar bin (install_release opts cfg_path exe auth asset sha tar bin h)

  staged_if : Opts → Text → Option Text → Release → Bool → Io (Unit {0})
  unfolding stage
  staged_if opts cfg_path auth rel false = pure tt
  staged_if opts cfg_path auth rel true =
      stage opts cfg_path auth rel
        (named_asset (asset_name (latest_of rel) build.target) rel.assets) build.exe

  -- `confirm`
  confirm : Text → Io Bool
  confirm prompt = do answer ← ask sys prompt; pure (says_yes answer)

  -- `opts.yes`, or the user's consent.
  agreed : Opts → Text → Io Bool
  unfolding confirm
  agreed opts latest =
      if opts.yes
      then pure true
      else confirm (codes "update " ++ (build.version ++ (codes " -> " ++ (latest ++ codes "?"))))

  -- The release against the running program, and the user's consent.
  unfoldable pub update_to : Opts → Text → Option Text → Release → Io (Unit {0})
  unfolding staged_if agreed
  update_to opts cfg_path auth rel =
      if not (wants opts (latest_of rel) build.version)
      then pure tt
      else if opts.check
      then pure tt
      else (agreed opts (latest_of rel) >>= staged_if opts cfg_path auth rel)

  -- `run`
  unfoldable pub self_update : Text → Opts → Io (Unit {0})
  unfolding update_to
  self_update cfg_path opts = do
    repo ← decoded (parse_repo_url build.repository) bad_release
    auth ← best_effort_token cfg_path
    rel ← fetch_release sys build.json repo.0 repo.1 auth opts.tag opts.allow_prerelease
    update_to opts cfg_path auth rel

  latest_named : Option Text → Option (Text × Text) → Total (Option Text)
  latest_named auth none h = (none, h)
  latest_named auth (some (owner, repo)) h =
      let (r, h') = fetch_release sys build.json owner repo auth none false h in
      (and_then (to_option r) (λ rel. some (latest_of rel)), h')

  unfoldable pub latest_version : Option Text → Total (Option Text)
  unfolding latest_named
  latest_version auth = latest_named auth (parse_repo_url build.repository)

  unfoldable pub update_available : Text → Bool
  update_available latest = is_newer latest build.version
