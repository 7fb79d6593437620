-- ===== src/Commands/Uninstall/Unloaded.antt =====
-- `uninstall` of src/commands.rs where the configuration or its token cannot be read.
use vmfleet.Prelude.{
  List, [], ◌∷◌, Bool, true, false, Option, some, none, Result, ok, err, ◌≡◌, refl, sym, arith, All,
  Bool-cases, inl, inr,
}
use vmfleet.Prelude.Text.{Text, codes}
use vmfleet.Prelude.Act.{◌>>=◌, proceed, proceed-ok, Returns}
use vmfleet.World.{
  System, Io, History, Request, Failure, config_failed, read_file, read_text, Extends, unchanged,
  asked, Extends-trans, Extends-mono,
}
use vmfleet.Naming.{vm_prefix}
use vmfleet.Config.{Config, ConfigError, GitHub}
use vmfleet.Github.{Client}
use vmfleet.Multipass.{VmState, list_prefixed, purge}
use vmfleet.Multipass.Purge.{delete_command, purge-TearsDown, purge-asks}
use vmfleet.Commands.Uninstall.Stopped.{fleet_stopped, stop_fleet-steps}
use vmfleet.Commands.Uninstall.{
  config_token, keeps, deregister_with, deregister_all, purge_listed, remove_files, tear_down,
  UninstallOpts, uninstall, asked_first, uninstall_if, load_config, token_file_text, needs_file,
}

module _ {F : Type 0} (sys : System) (env : Text → Option Text) (parse : Text → Option (Config F))
    (connect : GitHub → Text → Result ConfigError Client) where
  abbrev Grows : History → History → Type 0
  Grows h h' = Extends (λ _. Unit {0}) h h'

  -- The deletion of the machine was asked for between the two histories.
  abbrev pub AsksDelete : Text → History → History → Type 0
  AsksDelete name h h' =
      (before : History) × Grows h before × Grows (delete_command name ∷ before) h'

  any_request : {P : Request → Type 0} {h h' : History} → Extends P h h' → Grows h h'
  any_request e = Extends-mono (λ _ _. tt) e

  purge_listed-Grows :
      (vms : List (Text × VmState)) (h : History)
      → Grows h (purge_listed sys env parse connect none false vms h).1
  unfolding purge_listed keeps
  purge_listed-Grows [] h = unchanged
  purge_listed-Grows ((name, state) ∷ vms) h =
      Extends-trans (any_request (purge-TearsDown sys name h)) (purge_listed-Grows vms _)

  All-earlier :
      (h0 h h' : History) (vms : List (Text × VmState))
      → Grows h0 h
      → All (λ vm. AsksDelete vm.0 h h') vms
      → All (λ vm. AsksDelete vm.0 h0 h') vms
  All-earlier h0 h h' [] g a = tt
  All-earlier h0 h h' (vm ∷ vms) g ((before, e, e'), a) =
      ((before, Extends-trans g e, e'), All-earlier h0 h h' vms g a)

  purge_listed_total :
      (vms : List (Text × VmState)) (h : History)
      → purge_listed sys env parse connect none false vms h
        ≡ (ok tt, (purge_listed sys env parse connect none false vms h).1)
  unfolding purge_listed keeps
  purge_listed_total [] h = refl
  purge_listed_total ((name, state) ∷ vms) h = purge_listed_total vms _

  purge_listed-deletes :
      (vms : List (Text × VmState)) (h : History)
      → All (λ vm. AsksDelete vm.0 h (purge_listed sys env parse connect none false vms h).1) vms
  unfolding purge_listed keeps
  purge_listed-deletes [] h = tt
  purge_listed-deletes ((name, state) ∷ vms) h =
      let (before, e, e') = purge-asks sys name h in
      let h' = (purge sys name h).1 in
      (
        (before, any_request e, Extends-trans (any_request e') (purge_listed-Grows vms h')),
        All-earlier h h' _ vms (any_request (purge-TearsDown sys name h))
            (purge_listed-deletes vms h'),
      )

  tear_down_unloaded :
      (cfg_path : Text) (h h' : History) (vms : List (Text × VmState))
      → list_prefixed sys vm_prefix h ≡ (ok vms, h')
      → All (λ vm. AsksDelete vm.0 h' (tear_down sys env parse connect cfg_path false none h).1) vms
  unfolding tear_down deregister_all remove_files
  tear_down_unloaded cfg_path h h' vms listed =
      rw listed (rw (purge_listed_total vms h') (purge_listed-deletes vms h'))

  tear_down_succeeds :
      (cfg_path : Text) (h h' : History) (vms : List (Text × VmState))
      → list_prefixed sys vm_prefix h ≡ (ok vms, h')
      → (tear_down sys env parse connect cfg_path false none h).0 ≡ ok tt
  unfolding tear_down deregister_all remove_files
  tear_down_succeeds cfg_path h h' vms listed = rw listed (rw (purge_listed_total vms h') refl)

  -- The two theorems' runs go on from the stopped fleet.
  abbrev stopped : History → History
  stopped h = fleet_stopped sys env h

  uninstall_from :
      (cfg_path : Text) (opts : UninstallOpts)
      → opts.yes ≡ true
      → (h : History)
      → uninstall sys env parse connect cfg_path opts h
        ≡ (load_config sys env parse connect cfg_path
              >>= tear_down sys env parse connect cfg_path opts.purge_all)
            (stopped h)
  unfolding uninstall asked_first uninstall_if
  uninstall_from cfg_path opts agreed h =
      rw agreed (rw (stop_fleet-steps sys env parse connect h) refl)

  -- With `--yes`, without `--purge-all`, and where the configuration does not load after the fleet
  -- was stopped: the command succeeds, and it asked for the deletion of every listed machine with
  -- the fleet's prefix, so that no base is kept.
  pub uninstall_unloaded :
      (cfg_path : Text) (opts : UninstallOpts) (h h' : History) (vms : List (Text × VmState))
      → opts.yes ≡ true
      → opts.purge_all ≡ false
      → (load_config sys env parse connect cfg_path (stopped h)).0 ≡ ok none
      → list_prefixed sys vm_prefix (read_file cfg_path ∷ stopped h) ≡ (ok vms, h')
      → ((uninstall sys env parse connect cfg_path opts h).0 ≡ ok tt)
        × All (λ vm. AsksDelete vm.0 h' (uninstall sys env parse connect cfg_path opts h).1) vms
  unfolding load_config read_text
  uninstall_unloaded cfg_path opts h h' vms agreed keep unloaded listed =
      let h2 = read_file cfg_path ∷ stopped h in
      rw (uninstall_from cfg_path opts agreed h) (
        rw
          (proceed-ok (load_config sys env parse connect cfg_path (stopped h))
            (tear_down sys env parse connect cfg_path opts.purge_all) none unloaded)
          (rw keep (
            tear_down_succeeds cfg_path h2 h' vms listed,
            tear_down_unloaded cfg_path h2 h' vms listed,
          )))

  -- A file is read.
  pub data Reads : Request → Type 0 where
    reads : (path : Text) → Reads (read_file path)

  config_token-Reads :
      (cfg : Config F) (h : History) → Extends Reads h (config_token sys env parse connect cfg h).1
  unfolding config_token token_file_text read_text
  config_token-Reads cfg h = elim (Bool-cases (needs_file (env (codes "VMFLEET_TOKEN")))) [
    | inl needed ↦ rw needed (asked unchanged _ (reads _))
    | inr given ↦ rw given unchanged
  ]

  -- The call fails, after requests that meet `P`.
  abbrev pub Fails :
      {A : Type 0} → (Request → Type 0) → History → Result Failure A × History → Type 0
  Fails P h x = (x.0 ≡ err config_failed) × Extends P h x.1

  Fails-proceed :
      {A B : Type 0} {P : Request → Type 0} {h : History} (x : Result Failure A × History)
      (f : A → Io B)
      → Fails P h x
      → Fails P h (proceed x f)
  Fails-proceed (ok a, s) f (e, g) = cc
  Fails-proceed (err e', s) f (e, g) = (ground arith, g)

  -- The first call returns, and what follows fails.
  Fails-after :
      {A B : Type 0} {P : Request → Type 0} {h : History} (x : Result Failure A × History) {a : A}
      (f : A → Io B)
      → x.0 ≡ ok a
      → Extends P h x.1
      → Fails P x.1 (f a x.1)
      → Fails P h (proceed x f)
  Fails-after {P = P} (ok a', s) {a} f e g (k, k') =
      let same : a ≡ a' = cc in rw (sym same) (k, Extends-trans g k')
  Fails-after (err e', s) f e g k = cc

  Fails-Returns :
      {A B : Type 0} {P : Request → Type 0} {h : History} (x : Result Failure A × History)
      (f : A → Io B)
      → Returns x (λ _ s. Extends P h s)
      → ((a : A) (s : History) → Fails P s (f a s))
      → Fails P h (proceed x f)
  Fails-Returns (ok a, s) f g k = let (e, g') = k a s in (e, Extends-trans g g')
  Fails-Returns (err e, s) f g k = absurd g

  tear_down-Fails :
      (cfg_path : Text) (purge_all : Bool) (cfg : Config F) (h : History) (e : ConfigError)
      → (config_token sys env parse connect cfg h).0 ≡ ok (err e)
      → Fails Reads h (tear_down sys env parse connect cfg_path purge_all (some cfg) h)
  unfolding tear_down deregister_all deregister_with
  tear_down-Fails cfg_path purge_all cfg h e failed =
      Fails-proceed (deregister_all sys env parse connect (some cfg) h) _ (
        Fails-after (config_token sys env parse connect cfg h) _ failed (config_token-Reads cfg h)
          (refl, unchanged))

  load_config-Reads :
      (cfg_path : Text) (h : History)
      → Extends Reads h (load_config sys env parse connect cfg_path h).1
  unfolding load_config read_text
  load_config-Reads cfg_path h = asked unchanged _ (reads cfg_path)

  -- With `--yes`, and where the configuration loads after the fleet was stopped but its token cannot
  -- be read: the command fails, and what it asked for is the stop of the fleet, step by step, and
  -- after it the files that it reads, so that no machine is listed or torn down.
  pub uninstall-Fails :
      (cfg_path : Text) (opts : UninstallOpts) (cfg : Config F) (e : ConfigError) (h : History)
      → opts.yes ≡ true
      → (load_config sys env parse connect cfg_path (stopped h)).0 ≡ ok (some cfg)
      → (config_token sys env parse connect cfg
          (load_config sys env parse connect cfg_path (stopped h)).1).0
        ≡ ok (err e)
      → Fails Reads (stopped h) (uninstall sys env parse connect cfg_path opts h)
  uninstall-Fails cfg_path opts cfg e h agreed loads fails =
      let loaded = load_config sys env parse connect cfg_path (stopped h) in
      rw (uninstall_from cfg_path opts agreed h) (
        Fails-after loaded _ loads (load_config-Reads cfg_path (stopped h))
          (tear_down-Fails cfg_path opts.purge_all cfg loaded.1 e fails))
