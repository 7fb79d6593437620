-- ===== src/Selfupdate/Install/Gated/Stages.antt =====
-- The requests of src/selfupdate.rs from the download of a release to its installation.
use vmfleet.Prelude.{
  subst, ◌∙◌, List, ap, ◌∷◌, Bool, true, false, Option, none, some, ok, ◌≡◌, refl,
}
use vmfleet.Prelude.Text.{Text, codes}
use vmfleet.Prelude.Act.{proceed-eq-ok, if_call-after}
use vmfleet.World.{
  System, History, Request, read_file, write_file, set_mode, replace_self, path_exists, change,
  exists, read_text, io_failed, run, Extends, unchanged, asked, Extends-trans, Extends-proceed,
  Extends-proceed_by,
}
use vmfleet.Paths.{join}
use vmfleet.Selfupdate.Version.{Asset, Release}
use vmfleet.Selfupdate.Names.{same_letters, part_of}
use vmfleet.Selfupdate.Download.{decoded, download_asset, fetch_sha256, done_or}
use vmfleet.Selfupdate.Download.Asks.{
  get, decoded-stays, done_or-Keeps, download_asset-Keeps, fetch_sha256-Keeps,
}
use vmfleet.Selfupdate.Choice.{Opts, Build, named_asset, find_entry}
use vmfleet.Selfupdate.Install.{
  hashed, compared, verify, unpacked, extract_binary, make_executable, upgrade_if, post_upgrade,
  remove_staged, swap_in, install_release, staged, stage,
}
use vmfleet.Selfupdate.Install.Gated.{
  archive_of, checksum_of, tar_of, bin_of, prompt_of, IsAgreed, IsUnpacked, IsInstallable, IsStaged,
  tar, tar_part, bin, bin_part, Does, pauses, reads, looks_for, downloads, downloads_privately,
  writes_archive, writes_program, renames, removes, makes_executable, replaces, upgrades,
}
use vmfleet.Selfupdate.Install.Gated.Checks.{
  verify-Verified, decoded-eq-ok, unpacked-eq-ok, done_or-eq-ok,
}

module _ {F : Type 0} (sys : System) (build : Build F) (env : Text → Option Text) (opts : Opts)
    (cfg_path : Text) where
  abbrev Allowed : Request → Type 0
  Allowed = Does sys build env opts cfg_path

  abbrev Agreed : Release → Type 0
  Agreed = IsAgreed sys build env opts cfg_path

  abbrev Stages : Text → Release → Text → Type 0
  Stages = IsStaged sys build env opts cfg_path

  abbrev archive : Release → Option Asset
  archive = archive_of sys build env opts cfg_path

  abbrev checksum : Release → Option Asset
  checksum = checksum_of sys build env opts cfg_path

  abbrev tar_path : Text → Release → Text
  tar_path = tar_of sys build env opts cfg_path

  abbrev bin_path : Text → Release → Text
  bin_path = bin_of sys build env opts cfg_path

  abbrev prompt : Release → Text
  prompt = prompt_of sys build env opts cfg_path

  abbrev Stays : History → History → Type 0
  Stays h h' = Extends Allowed h h'

  module _ (rel : Release) (ready : Agreed rel) (exe : Text) (here : build.exe ≡ some exe) where
    asset_private :
        (name : Text) (a : Asset)
        → named_asset name rel.assets ≡ some a
        → (auth : Option Text) → Allowed (get a.url auth)
    asset_private name a e auth = downloads_privately rel ready name a e auth

    hashed-Stays :
        (want : Text) (o : Option Text) (h : History) → Stays h (hashed sys build env want o h).1
    unfolding hashed compared
    hashed-Stays want none h = unchanged
    hashed-Stays want (some content) h =
        if_call-after (same_letters want (build.sha256 content)) _ _ h (Stays h) unchanged unchanged

    verify-Stays :
        (name : Text) (sha : Option Asset)
        → named_asset name rel.assets ≡ sha
        → (auth : Option Text) (path : Text) (h : History)
        → Stays h (verify sys build env sha auth path h).1
    unfolding verify read_text
    verify-Stays name none e auth path h = unchanged
    verify-Stays name (some sha) e auth path h =
        Extends-proceed (fetch_sha256 sys sha auth h) _
          (fetch_sha256-Keeps sys Allowed pauses sha auth (downloads sha.browser_download_url)
            (asset_private name sha e auth) h)
          (λ want h1.
            Extends-trans (asked unchanged _ (reads path))
              (hashed-Stays want (sys.on_read (read_file path ∷ h1)) _))

    unpacked-Stays :
        (o : _) (h : History) → Stays h (unpacked sys build env (codes "vmfleet") o h).1
    unfolding unpacked
    unpacked-Stays none h = unchanged
    unpacked-Stays (some entries) h = decoded-stays Allowed _ _ h

    abbrev Unpacked : Text → History → Type 0
    Unpacked = IsUnpacked sys build env opts cfg_path exe rel

    abbrev Installable : Type 0
    Installable = IsInstallable sys build env opts cfg_path exe rel

    abbrev program_written : Text → History → History
    program_written program h =
        write_file (bin_path exe rel) program ∷ read_file (tar_path exe rel) ∷ h

    -- The archive was downloaded and verified before this history.
    module _ (h : History)
        (unpack : (packed program : Text)
          → (entries : List (Option (Text × Text)))
          → sys.on_read (read_file (tar_path exe rel) ∷ h) ≡ some packed
          → build.entries packed ≡ some entries
          → find_entry (codes "vmfleet") entries ≡ some program
          → Unpacked program (read_file (tar_path exe rel) ∷ h)) where
      extract_binary-Stays :
          Stays h
            (extract_binary sys build env
              (tar_path exe rel)
              (codes "vmfleet")
              (bin_path exe rel)
              h).1
      unfolding extract_binary read_text change
      extract_binary-Stays =
          let h1 = read_file (tar_path exe rel) ∷ h in
          Extends-trans (asked unchanged _ (reads (tar_path exe rel))) (
            Extends-proceed_by (decoded (sys.on_read h1) io_failed h1) _
              (decoded-stays Allowed (sys.on_read h1) io_failed h1)
              (λ packed h2 e.
                let (was_read, same) =
                  decoded-eq-ok sys build env opts cfg_path (sys.on_read h1) io_failed h1 e in
                Extends-proceed_by
                  (unpacked sys build env (codes "vmfleet") (build.entries packed) h2) _
                  (unpacked-Stays (build.entries packed) h2)
                  (λ program h3 e'.
                    let (entries, listed, found, same') =
                      unpacked-eq-ok sys build env opts cfg_path (build.entries packed) h2 e' in
                    Extends-trans
                      (asked unchanged _ (
                        writes_program rel exe program h1 ready
                          (unpack packed program entries was_read listed found)))
                      (done_or-Keeps sys Allowed pauses io_failed _ _))))

      extract_binary-eq-ok :
          {h' : History} {u : Unit {0}}
          → extract_binary sys build env (tar_path exe rel) (codes "vmfleet") (bin_path exe rel) h
            ≡ (ok u, h')
          → (program : Text) × Unpacked program (read_file (tar_path exe rel) ∷ h)
            × (sys.on_write (program_written program h) ≡ true)
            × (h' ≡ program_written program h)
      unfolding extract_binary read_text change
      extract_binary-eq-ok e =
          let h1 = read_file (tar_path exe rel) ∷ h in
          let (packed, h2, e1, rest) = proceed-eq-ok (decoded (sys.on_read h1) io_failed h1) _ e in
          let (was_read, same) =
            decoded-eq-ok sys build env opts cfg_path (sys.on_read h1) io_failed h1 e1 in
          let (program, h3, e2, last) =
            proceed-eq-ok (unpacked sys build env (codes "vmfleet") (build.entries packed) h2) _
              rest in
          let (entries, listed, found, same') =
            unpacked-eq-ok sys build env opts cfg_path (build.entries packed) h2 e2 in
          let at_end : h3 ≡ h1 = same' ∙ same in
          let (written, end) = done_or-eq-ok sys build env opts cfg_path _ _ last in
          (
            program,
            unpack packed program entries was_read listed found,
            subst (λ k. sys.on_write (write_file (bin_path exe rel) program ∷ k) ≡ true) at_end
                written,
            end ∙ ap (λ k. write_file (bin_path exe rel) program ∷ k) at_end,
          )

    upgrade_if-Stays :
        Installable
        → (b : Bool) (h : History) → Stays h (upgrade_if sys build env exe cfg_path b h).1
    unfolding upgrade_if run
    upgrade_if-Stays v false h = unchanged
    upgrade_if-Stays v true h = asked unchanged _ (upgrades rel exe _ ready v here)

    post_upgrade-Stays :
        Installable → (h : History) → Stays h (post_upgrade sys build env exe cfg_path h).1
    unfolding post_upgrade exists
    post_upgrade-Stays v h =
        Extends-trans (asked unchanged _ (looks_for cfg_path))
          (upgrade_if-Stays v (sys.on_exists (path_exists cfg_path ∷ h)) _)

    swap_in-Stays :
        (program : Text) (before h : History)
        → Unpacked program before
        → sys.on_write (write_file (bin_path exe rel) program ∷ before) ≡ true
        → h ≡ write_file (bin_path exe rel) program ∷ before
        → Stays h (swap_in sys build env opts cfg_path exe (bin_path exe rel) h).1
    unfolding swap_in make_executable change
    swap_in-Stays program before h unpacked written at_hand =
        Extends-proceed_by (make_executable sys build env (bin_path exe rel) h) _
          (Extends-trans (asked unchanged _ (makes_executable rel exe _ ready bin))
            (done_or-Keeps sys Allowed pauses io_failed _ _))
          (λ _ h1 e.
            let (set, _) = done_or-eq-ok sys build env opts cfg_path _ _ e in
            let v : Installable = record {
              program = program;
              before = before;
              unpacked = unpacked;
              written = written;
              executable =
                  subst (λ k. sys.on_write (set_mode (bin_path exe rel) ∷ k) ≡ true) at_hand set;
            } in
            let h2 = replace_self (bin_path exe rel) ∷ h1 in
            Extends-trans (asked unchanged _ (replaces rel exe ready v)) (
              Extends-proceed (done_or sys io_failed (sys.on_write h2) h2) _
                (done_or-Keeps sys Allowed pauses io_failed (sys.on_write h2) h2)
                (λ _ h3.
                  if_call-after opts.no_restart _ _ h3 (Stays h3) unchanged
                    (post_upgrade-Stays v h3))))

    install_release-Stays :
        (auth : Option Text) (a : Asset)
        → archive rel ≡ some a
        → (h : History)
        → Stays h
            (install_release sys build env opts cfg_path exe auth a
              (checksum rel)
              (tar_path exe rel)
              (bin_path exe rel)
              h).1
    unfolding install_release
    install_release-Stays auth a found h =
        Extends-proceed_by (download_asset sys a auth (tar_path exe rel) h) _
          (download_asset-Keeps sys Allowed pauses a auth (downloads a.browser_download_url)
            (asset_private _ a found auth) (tar_path exe rel)
            (λ r fetched. writes_archive rel exe r ready fetched)
            (renames rel exe _ _ ready tar_part tar) h)
          (λ _ h1 e1.
            Extends-proceed_by (verify sys build env (checksum rel) auth (tar_path exe rel) h1) _
              (verify-Stays _ (checksum rel) refl auth (tar_path exe rel) h1)
              (λ u h2 e2.
                let unpack : (packed program : Text) (entries : List (Option (Text × Text)))
                    → sys.on_read (read_file (tar_path exe rel) ∷ h2) ≡ some packed
                    → build.entries packed ≡ some entries
                    → find_entry (codes "vmfleet") entries ≡ some program
                    → Unpacked program (read_file (tar_path exe rel) ∷ h2) =
                  λ packed program entries was_read listed inside. record {
                    asset = a;
                    auth = auth;
                    start = h;
                    at_hand = h1;
                    checked = h2;
                    packed = packed;
                    entries = entries;
                    is_archive = found;
                    downloaded = e1;
                    verified =
                        verify-Verified sys build env opts cfg_path (checksum rel) auth
                          (tar_path exe rel) h1 e2;
                    read_again = was_read;
                    unpacked_as = listed;
                    contained = inside;
                    ends = refl;
                  } in
                Extends-proceed_by
                  (extract_binary sys build env (tar_path exe rel) (codes "vmfleet")
                    (bin_path exe rel) h2)
                  _ (extract_binary-Stays h2 unpack)
                  (λ _ h3 e3.
                    let (program, is_unpacked, written, end) = extract_binary-eq-ok h2 unpack e3 in
                    swap_in-Stays program (read_file (tar_path exe rel) ∷ h2) h3 is_unpacked written
                      end)))

    remove_staged-Stays :
        (path : Text)
        → Stages exe rel path
        → Stages exe rel (part_of path)
        → (h : History) → Stays h (remove_staged sys build env path h).1
    unfolding change
    remove_staged-Stays path w p h =
        asked (asked unchanged _ (removes rel exe path ready w)) _ (removes rel exe _ ready p)

  -- The installation of a release that was agreed to, from its staging to the clean-up.
  pub stage-Stays :
      (rel : Release)
      → Agreed rel
      → (auth : Option Text) (a : Option Asset) → archive rel ≡ a
      → (exe : Option Text) → build.exe ≡ exe
      → (h : History) → Stays h (stage sys build env opts cfg_path auth rel a exe h).1
  unfolding stage staged change join part_of
  stage-Stays rel ready auth none found exe here h = unchanged
  stage-Stays rel ready auth (some a) found none here h = unchanged
  stage-Stays rel ready auth (some a) found (some exe) here h =
      Extends-trans (install_release-Stays rel ready exe here auth a found h) (
        Extends-trans (remove_staged-Stays rel ready exe here _ tar tar_part _)
          (remove_staged-Stays rel ready exe here _ bin bin_part _))
