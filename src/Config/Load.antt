-- ===== src/Config/Load.antt =====
-- What `load` of src/config.rs returns.
use vmfleet.Prelude.{Option, none, some, Result, ok, err, ◌≡◌, refl, subst, arith}
use vmfleet.Prelude.Text.{Text}
use vmfleet.Config.Types.{Config, ConfigError}
use vmfleet.Config.Validate.{expand_paths, validated, from_parsed, from_text, load, validate}
use vmfleet.Config.Sound.{IsRunnable, validate-IsRunnable}

module _ {F : Type 0} (env read : Text → Option Text) (parse : Text → Option (Config F)) where
  -- The configuration is that of the file's text, with its paths expanded, and the program can run
  -- on it.
  pub record IsLoaded (path : Text) (c : Config F) : Type 0 where
    pub text : Text
    pub parsed : Config F
    pub was_read : read path ≡ some text
    pub was_parsed : parse text ≡ some parsed
    pub expanded : c ≡ expand_paths env parsed
    pub runnable : IsRunnable c

  validated-IsRunnable :
      (c : Config F) (r : Result ConfigError (Unit {0})) {c' : Config F}
      → validate c ≡ r
      → validated env c r ≡ ok c'
      → (c' ≡ c) × IsRunnable c'
  unfolding validated
  validated-IsRunnable c (err e) v h = cc
  validated-IsRunnable c (ok u) {c'} v h =
      let e : c ≡ c' = ground arith in
      let e' : c' ≡ c = ground arith in (e', subst IsRunnable e (validate-IsRunnable c v))

  from_parsed-IsLoaded :
      (path text : Text) (o : Option (Config F)) {c : Config F}
      → read path ≡ some text
      → parse text ≡ o
      → from_parsed env o ≡ ok c
      → IsLoaded path c
  unfolding from_parsed
  from_parsed-IsLoaded path text none r q h = cc
  from_parsed-IsLoaded path text (some parsed) r q h =
      let c' = expand_paths env parsed in
      let (e, good) = validated-IsRunnable c' (validate c') refl h in
      record {
        text = text;
        parsed = parsed;
        was_read = r;
        was_parsed = q;
        expanded = e;
        runnable = good;
      }

  from_text-IsLoaded :
      (path : Text) (o : Option Text) {c : Config F}
      → read path ≡ o
      → from_text env parse o ≡ ok c
      → IsLoaded path c
  unfolding from_text
  from_text-IsLoaded path none r h = cc
  from_text-IsLoaded path (some text) r h = from_parsed-IsLoaded path text (parse text) r refl h

  -- A configuration that was loaded is the one in the file with its paths expanded, and meets all
  -- that validation promises, whatever the reader and the parser are.
  pub load-IsLoaded :
      (path : Text) {c : Config F} → load env read parse path ≡ ok c → IsLoaded path c
  unfolding load
  load-IsLoaded path h = from_text-IsLoaded path (read path) refl h
