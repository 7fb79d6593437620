-- ===== src/Selfupdate/Install/Gated/Updates.antt =====
-- That an update of src/selfupdate.rs does no more to the host than it may.
use vmfleet.Prelude.{
  ap, ◌∷◌, Bool, true, false, not, Option, none, some, Result, ok, err, ◌≡◌, ◌⊎◌, inl, inr, refl,
  arith,
}
use vmfleet.Prelude.Text.{Text}
use vmfleet.Prelude.Act.{proceed, if_call_by}
use vmfleet.World.{
  ask, System, Io, History, Request, read_file, path_exists, ask_user, exists, read_text,
  bad_release, Extends, unchanged, asked, Extends-trans, Extends-proceed, Extends-proceed_by,
}
use vmfleet.Config.{Config}
use vmfleet.Config.Validate.{LoadError, load}
use vmfleet.Selfupdate.Version.{Asset, Release}
use vmfleet.Selfupdate.Names.{parse_repo_url}
use vmfleet.Selfupdate.Download.{decoded, fetch_release}
use vmfleet.Selfupdate.Download.Asks.{decoded-stays, fetch_release-Keeps}
use vmfleet.Selfupdate.Choice.{Opts, Build, latest_of, wants}
use vmfleet.Selfupdate.Install.{
  confirm, says_yes, config_token, token_of_file, file_token, token_or_file, best_effort_token,
  staged_if, agreed, update_to, self_update,
}
use vmfleet.Selfupdate.Install.Gated.{
  archive_of, prompt_of, IsAgreed, Does, pauses, reads, looks_for, asks, looks_up,
}
use vmfleet.Selfupdate.Install.Gated.Stages.{stage-Stays}

module _ {F : Type 0} (sys : System) (build : Build F) (env : Text → Option Text) (opts : Opts)
    (cfg_path : Text) where
  abbrev Allowed : Request → Type 0
  Allowed = Does sys build env opts cfg_path

  abbrev Agreed : Release → Type 0
  Agreed = IsAgreed sys build env opts cfg_path

  abbrev archive : Release → Option Asset
  archive = archive_of sys build env opts cfg_path

  abbrev prompt : Release → Text
  prompt = prompt_of sys build env opts cfg_path

  abbrev Stays : History → History → Type 0
  Stays h h' = Extends Allowed h h'

  staged_if-Stays :
      (rel : Release) (auth : Option Text) (b : Bool)
      → (b ≡ true → Agreed rel)
      → (h : History) → Stays h (staged_if sys build env opts cfg_path auth rel b h).1
  unfolding staged_if
  staged_if-Stays rel auth false ready h = unchanged
  staged_if-Stays rel auth true ready h =
      stage-Stays sys build env opts cfg_path rel (ready refl) auth (archive rel) refl build.exe
        refl h

  -- What the question was answered.
  abbrev Consent : Release → Type 0
  Consent rel =
      (opts.yes ≡ true) ⊎ ((h : History) × (sys.on_ask (ask_user (prompt rel) ∷ h) ≡ some true))

  yes_some : (o : Option Bool) → says_yes o ≡ true → o ≡ some true
  yes_some none e = cc
  yes_some (some b) e = ap some e

  agreed_then :
      (rel : Release) (next : Bool → Io (Unit {0}))
      → ((b : Bool) → (b ≡ true → Consent rel) → (h : History) → Stays h (next b h).1)
      → (h : History) → Stays h (proceed (agreed sys build env opts (latest_of rel) h) next).1
  unfolding agreed confirm ask
  agreed_then rel next k h =
      if_call_by opts.yes _ _ h (λ x. Stays h (proceed x next).1) (λ says. k true (λ _. inl says) h)
        (λ _.
          let h' = ask_user (prompt rel) ∷ h in
          Extends-trans (asked unchanged _ (asks (prompt rel)))
            (k (says_yes (sys.on_ask h')) (λ answer. inr (h, yes_some _ answer)) h'))

  is_true : (b : Bool) → not b ≡ false → b ≡ true
  is_true b e = ground arith

  update_to-Stays :
      (rel : Release) (owner repo : Text) (auth auth' : Option Text) (h0 : History)
      → (fetch_release sys build.json owner repo auth' opts.tag opts.allow_prerelease h0).0 ≡ ok rel
      → (h : History) → Stays h (update_to sys build env opts cfg_path auth rel h).1
  unfolding update_to
  update_to-Stays rel owner repo auth auth' h0 fetched h =
      let test = wants opts (latest_of rel) build.version in
      if_call_by (not test) _ _ h (λ x. Stays h x.1) (λ _. unchanged)
        (λ wanted.
          if_call_by opts.check _ _ h (λ x. Stays h x.1) (λ _. unchanged)
            (λ not_checking.
              agreed_then rel _
                (λ b consent. staged_if-Stays rel auth b (λ e. record {
                  fetched = (owner, repo, auth', h0, fetched);
                  wanted = is_true test wanted;
                  not_checking = not_checking;
                  consent = consent e;
                }))
                h))

  config_token-Stays :
      (r : Result LoadError (Config F)) (h : History) → Stays h (config_token sys build env r h).1
  unfolding config_token read_text
  config_token-Stays (err e) h = unchanged
  config_token-Stays (ok cfg) h = asked unchanged _ (reads cfg.github.token_file)

  token_of_file-Stays :
      (b : Bool) (h : History) → Stays h (token_of_file sys build env cfg_path b h).1
  unfolding token_of_file read_text
  token_of_file-Stays false h = unchanged
  token_of_file-Stays true h = Extends-trans (asked unchanged _ (reads cfg_path)) (
      config_token-Stays
        (load env (λ _. sys.on_read (read_file cfg_path ∷ h)) build.config cfg_path) _)

  token_or_file-Stays :
      (o : Option Text) (h : History) → Stays h (token_or_file sys build env cfg_path o h).1
  unfolding token_or_file file_token exists
  token_or_file-Stays (some t) h = unchanged
  token_or_file-Stays none h =
      Extends-trans (asked unchanged _ (looks_for cfg_path))
        (token_of_file-Stays (sys.on_exists (path_exists cfg_path ∷ h)) _)

  best_effort_token-Stays : (h : History) → Stays h (best_effort_token sys build env cfg_path h).1
  unfolding best_effort_token
  best_effort_token-Stays h = token_or_file-Stays _ h

  -- Whatever the servers, the disk and the user answer, an update touches only this of the host: it
  -- writes under the staged names of a release the archive that a server sent and the program that
  -- was unpacked from it, renames and removes these files, replaces the running program by the
  -- staged one, and starts that one. It does so only for a release that was fetched, is newer or
  -- pinned, was not only checked for and was agreed to. The program is written only after the archive
  -- was downloaded, then found to have the digest that the release states, where it states one, and
  -- then read for it; the running program is replaced only once that one was written and made
  -- executable. The token goes to GitHub's API and to the URLs that such a release gives for its
  -- assets in the API, whichever hosts these name, and to no other URL.
  pub self_update-Does :
      (h : History)
      → Extends (Does sys build env opts cfg_path) h (self_update sys build env cfg_path opts h).1
  unfolding self_update
  self_update-Does h =
      Extends-proceed (decoded (parse_repo_url build.repository) bad_release h) _
        (decoded-stays Allowed _ _ h)
        (λ repo h1.
          Extends-proceed (best_effort_token sys build env cfg_path h1) _
            (best_effort_token-Stays h1)
            (λ auth h2.
              Extends-proceed_by
                (fetch_release sys build.json repo.0 repo.1 auth opts.tag opts.allow_prerelease h2)
                _
                (fetch_release-Keeps sys Allowed pauses build.json repo.0 repo.1 auth
                  (λ rest. looks_up rest auth) opts.tag opts.allow_prerelease h2)
                (λ rel h3 e. update_to-Stays rel repo.0 repo.1 auth auth h2 (ap (λ x. x.0) e) h3)))
