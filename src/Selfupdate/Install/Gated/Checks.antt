-- ===== src/Selfupdate/Install/Gated/Checks.antt =====
-- What the checks of src/selfupdate.rs have seen where they let an update go on.
use vmfleet.Prelude.{
  sym, Result, List, ap, ◌∷◌, Bool, true, false, Option, none, some, ok, ◌≡◌, inl, inr, refl,
  Bool-cases,
}
use vmfleet.Prelude.Text.{Text, codes}
use vmfleet.Prelude.Act.{ok-inj, proceed-eq-ok}
use vmfleet.World.{System, History, read_file, read_text, Failure, bad_archive, io_failed}
use vmfleet.Selfupdate.Version.{Asset}
use vmfleet.Selfupdate.Names.{same_letters}
use vmfleet.Selfupdate.Download.{decoded, fetch_sha256, done_or}
use vmfleet.Selfupdate.Choice.{Opts, Build, find_entry}
use vmfleet.Selfupdate.Install.{hashed, compared, verify, unpacked}
use vmfleet.Selfupdate.Install.Gated.{Verified}

module _ {F : Type 0} (sys : System) (build : Build F) (env : Text → Option Text) (opts : Opts)
    (cfg_path : Text) where
  abbrev Checked : Option Asset → Option Text → Text → History → History → Type 0
  Checked = Verified sys build env opts cfg_path

  hashed-Verified :
      (want : Text) (o : Option Text) (h : History) {h' : History} {u : Unit {0}}
      → hashed sys build env want o h ≡ (ok u, h')
      → (content : Text) × (o ≡ some content)
        × (same_letters want (build.sha256 content) ≡ true)
        × (h' ≡ h)
  unfolding hashed compared
  hashed-Verified want none h e = cc
  hashed-Verified want (some content) h e =
      elim (Bool-cases (same_letters want (build.sha256 content))) [
        | inl same ↦ let yes_ = rw same at e in (content, refl, same, sym (ok-inj yes_).1)
        | inr differs ↦ let no = rw differs at e in cc
      ]

  pub verify-Verified :
      (sha : Option Asset) (auth : Option Text) (path : Text) (h : History) {h' : History}
      {u : Unit {0}}
      → verify sys build env sha auth path h ≡ (ok u, h')
      → Checked sha auth path h h'
  unfolding verify read_text
  verify-Verified none auth path h e = sym (ok-inj e).1
  verify-Verified (some sha) auth path h e =
      let (want, h1, got, e1) = proceed-eq-ok (fetch_sha256 sys sha auth h) _ e in
      let (content, read, same, end) =
        hashed-Verified want (sys.on_read (read_file path ∷ h1)) _ e1 in
      (h1, want, content, got, read, same, end)

  pub decoded-eq-ok :
      {A : Type 0} (o : Option A) (failure : Failure) (h : History) {a : A} {h' : History}
      → ◌≡◌ {A = Result Failure A × History} (decoded o failure h) (ok a, h')
      → (o ≡ some a) × (h' ≡ h)
  decoded-eq-ok none failure h e = cc
  decoded-eq-ok (some a) failure h e = (ap some (ok-inj e).0, sym (ok-inj e).1)

  pub unpacked-eq-ok :
      (o : Option (List (Option (Text × Text)))) (h : History) {program : Text} {h' : History}
      → ◌≡◌ {A = Result Failure Text × History}
          (unpacked sys build env (codes "vmfleet") o h)
          (ok program, h')
      → (entries : List (Option (Text × Text))) × (o ≡ some entries)
        × (find_entry (codes "vmfleet") entries ≡ some program)
        × (h' ≡ h)
  unfolding unpacked
  unpacked-eq-ok none h e = cc
  unpacked-eq-ok (some entries) h e =
      let (found, same) = decoded-eq-ok (find_entry (codes "vmfleet") entries) bad_archive h e in
      (entries, refl, found, same)

  pub done_or-eq-ok :
      (b : Bool) (h : History) {h' : History} {u : Unit {0}}
      → done_or sys io_failed b h ≡ (ok u, h')
      → (b ≡ true) × (h' ≡ h)
  unfolding done_or
  done_or-eq-ok true h e = (refl, sym (ok-inj e).1)
  done_or-eq-ok false h e = cc
