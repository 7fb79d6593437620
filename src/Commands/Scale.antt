-- ===== src/Commands/Scale.antt =====
-- `scale` and `write_config` of src/commands.rs: the change of a pool's limits in the file of the
-- configuration. `toml` and `Path::parent` are given.
use vmfleet.Prelude.{
  ℕ, ◌∷◌, Bool, true, Option, some, none, Result, ok, err, ◌≡◌, inl, inr, refl, if◌then◌else◌,
  Bool-cases, Option-cases,
}
use vmfleet.Prelude.Text.{Text}
use vmfleet.Prelude.Act.{◌>>=◌, pure, fail, OnOk}
use vmfleet.World.{
  System, Io, Failure, History, Request, read_text, change, config_failed, make_dir, write_file,
  read_file, Extends, unchanged, asked, Extends-trans,
}
use vmfleet.Config.{Config, ConfigError}
use vmfleet.Config.Validate.{LoadError, load}
use vmfleet.Commands.Rescale.{rescale, IsRescaled, rescale-IsRescaled}

module _ {F : Type 0} (sys : System) (print : Config F → Option Text)
    (parent : Text → Option Text) where
  -- `create_dir_all` of the directory, where there is one.
  make_parent : Option Text → Io Bool
  make_parent none = pure true
  make_parent (some dir) = change sys (make_dir dir)

  write_printed : Text → Option Text → Io (Unit {0})
  write_printed path none = fail config_failed
  write_printed path (some text) = do
    written ← change sys (write_file path text)
    if written then pure tt else fail config_failed

  unfoldable pub write_config : Config F → Text → Io (Unit {0})
  unfolding make_parent write_printed
  write_config c path = do
    made ← make_parent (parent path)
    if made then write_printed path (print c) else fail config_failed

  write_rescaled : Text → Result ConfigError (Config F) → Io (Unit {0})
  unfolding write_config
  write_rescaled path (err e) = fail config_failed
  write_rescaled path (ok c) = write_config c path

  scale_loaded : Text → Text → Option ℕ → Option ℕ → Result LoadError (Config F) → Io (Unit {0})
  unfolding write_rescaled
  scale_loaded path name low high (err e) = fail config_failed
  scale_loaded path name low high (ok c) = write_rescaled path (rescale name low high c)

  -- `scale`, with the environment and the parser of the configuration.
  unfoldable pub scale :
      (Text → Option Text)
      → (Text → Option (Config F))
      → Text
      → Text
      → Option ℕ
      → Option ℕ
      → Io (Unit {0})
  unfolding scale_loaded
  scale env parse path name low high = do
    text ← read_text sys path
    scale_loaded path name low high (load env (λ _. text) parse path)

  -- The accesses to the file of the configuration, with what is written.
  pub data Access (loaded : Result LoadError (Config F)) (path name : Text) (low high : Option ℕ)
      : Request → Type 0 where
    reads : Access loaded path name low high (read_file path)
    makes : (dir : Text) → parent path ≡ some dir → Access loaded path name low high (make_dir dir)
    writes :
        (c c' : Config F) (text : Text)
        → loaded ≡ ok c
        → IsRescaled name low high c c'
        → print c' ≡ some text
        → Access loaded path name low high (write_file path text)

  -- The last request was the write of a rescaled configuration, and it was done.
  abbrev pub Written :
      Result LoadError (Config F) → Text → Text → Option ℕ → Option ℕ → History → Type 0
  Written loaded path name low high h' =
      (c : Config F) × (c' : Config F) × (text : Text) × (before : History) × (loaded ≡ ok c)
      × IsRescaled name low high c c'
      × (print c' ≡ some text)
      × (h' ≡ write_file path text ∷ before)
      × (sys.on_write h' ≡ true)

  -- What a call on the loaded configuration keeps to.
  abbrev Keeps :
      Result LoadError (Config F)
      → Text
      → Text
      → Option ℕ
      → Option ℕ
      → History
      → Result Failure (Unit {0}) × History
      → Type 0
  Keeps loaded path name low high h x =
      OnOk x (λ _ h'. Written loaded path name low high h')
      × Extends (Access loaded path name low high) h x.1

  module _ (path name : Text) (low high : Option ℕ) where
    write_printed-Keeps :
        (c c' : Config F) (h : History)
        → IsRescaled name low high c c'
        → Keeps (ok c) path name low high h (write_printed path (print c') h)
    unfolding write_printed change
    write_printed-Keeps c c' h i = elim (Option-cases (print c')) [
      | inl failed ↦ rw failed (tt, unchanged)
      | inr (text, printed) ↦
          let h' = write_file path text ∷ h in
          let log = asked unchanged (write_file path text) (writes c c' text refl i printed) in
          rw printed (elim (Bool-cases (sys.on_write h')) [
            | inl done ↦ rw done ((c, c', text, h, refl, i, printed, refl, done), log)
            | inr failed ↦ rw failed (tt, log)
          ])
    ]

    write_config-Keeps :
        (c c' : Config F) (h : History)
        → IsRescaled name low high c c'
        → Keeps (ok c) path name low high h (write_config c' path h)
    unfolding write_config make_parent change
    write_config-Keeps c c' h i = elim (Option-cases (parent path)) [
      | inl top ↦ rw top (write_printed-Keeps c c' h i)
      | inr (dir, e) ↦
          let h' = make_dir dir ∷ h in
          let log = asked unchanged (make_dir dir) (makes dir e) in
          rw e (elim (Bool-cases (sys.on_write h')) [
            | inl made ↦
                let rest = write_printed-Keeps c c' h' i in
                rw made (rest.0, Extends-trans log rest.1)
            | inr failed ↦ rw failed (tt, log)
          ])
    ]

    scale_loaded-Keeps :
        (loaded : Result LoadError (Config F)) (h : History)
        → Keeps loaded path name low high h (scale_loaded path name low high loaded h)
    unfolding scale_loaded write_rescaled
    scale_loaded-Keeps (err e) h = (tt, unchanged)
    scale_loaded-Keeps (ok c) h = write_rescaled-Keeps (rescale name low high c) refl
      where
        write_rescaled-Keeps :
            (r : Result ConfigError (Config F))
            → rescale name low high c ≡ r
            → Keeps (ok c) path name low high h (write_rescaled path r h)
        write_rescaled-Keeps (err e) q = (tt, unchanged)
        write_rescaled-Keeps (ok c') q =
            write_config-Keeps c c' h (rescale-IsRescaled name low high c q)

  -- `scale` reads the configuration's file, and where it succeeds the last thing it did was to write
  -- that file. It writes nothing but a configuration that was loaded and changed in the limits of
  -- the first pool of the name alone, and that the program can run on; succeed or fail, it asks for
  -- nothing else than the read, the write and the file's directory.
  pub scale-Written :
      (env : Text → Option Text) (parse : Text → Option (Config F)) (path name : Text)
      (low high : Option ℕ) (h : History)
      → let loaded = load env (λ _. sys.on_read (read_file path ∷ h)) parse path in
        let x = scale env parse path name low high h in
        OnOk x (λ _ h'. Written loaded path name low high h')
        × Extends (Access loaded path name low high) h x.1
  unfolding scale read_text
  scale-Written env parse path name low high h =
      let loaded = load env (λ _. sys.on_read (read_file path ∷ h)) parse path in
      let rest = scale_loaded-Keeps path name low high loaded (read_file path ∷ h) in
      (rest.0, Extends-trans (asked unchanged (read_file path) reads) rest.1)
