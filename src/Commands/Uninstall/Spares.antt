-- ===== src/Commands/Uninstall/Spares.antt =====
-- What `uninstall` of src/commands.rs does to the host, and which machines it leaves.
use vmfleet.Prelude.{
  ℕ, List, [], ◌∷◌, Bool, true, false, Option, some, none, Result, ok, err, ◌≡◌, refl, All, inl,
  inr, Bool-cases, subst, sym, ap,
}
use vmfleet.Prelude.Text.{Text, codes, starts_with}
use vmfleet.Commands.Uninstall.Fleet.{IsUnit, stop_fleet-Returns}
use vmfleet.Prelude.Act.{Returns-state, OnOk, if_call_by, if_call-after}
use vmfleet.World.{
  System, History, Request, command, read_file, remove_file, remove_tree, ask_user, read_text,
  change, confirmed, Extends, unchanged, asked, Extends-trans, Extends-mono, Extends-proceed,
  Extends-proceed_by,
}
use vmfleet.Paths.{join, systemd_user_dir, state_dir}
use vmfleet.Naming.{vm_prefix}
use vmfleet.Config.{Config, ConfigError, GitHub}
use vmfleet.Github.{Runner, Client, Remote, IsRemote}
use vmfleet.Github.Calls.{delete_counted, delete_runners_by_prefix}
use vmfleet.Systemd.{systemctl}
use vmfleet.Multipass.{VmState, list_prefixed}
use vmfleet.Multipass.Listing.{list_command, list_prefixed-asks, list_prefixed-All}
use vmfleet.Multipass.Purge.{TearsDown, purge-TearsDown}
use vmfleet.Commands.Uninstall.{
  UninstallOpts, keeps, load_config, token_file_text, config_token, stop_fleet, delete_records,
  deregister_with, deregister_all, purge_listed, remove_token, remove_files, tear_down,
  uninstall_if, asked_first, uninstall, needs_file,
}

module _ {F : Type 0} (sys : System) (env : Text → Option Text) (parse : Text → Option (Config F))
    (connect : GitHub → Text → Result ConfigError Client) (cfg_path : Text)
    (opts : UninstallOpts) where
  -- The requests of the command.
  pub data Uninstalls : Request → Type 0 where
    asks : (prompt : Text) → Uninstalls (ask_user prompt)
    controls : (args : List Text) (t : Option ℕ) → Uninstalls (command systemctl args t)
    reads : (path : Text) → Uninstalls (read_file path)
    remotely : {r : Request} → Remote r → Uninstalls r
    lists : Uninstalls list_command
    removes_unit : (u : Text) → IsUnit u → Uninstalls (remove_file (join (systemd_user_dir env) u))
    -- What `--purge-all` removes.
    removes_config : opts.purge_all ≡ true → Uninstalls (remove_file cfg_path)
    removes_state : opts.purge_all ≡ true → Uninstalls (remove_tree (state_dir env))
    removes_token :
        (cfg : Config F) (h : History)
        → (load_config sys env parse connect cfg_path h).0 ≡ ok (some cfg)
        → opts.purge_all ≡ true
        → Uninstalls (remove_file cfg.github.token_file)
    -- Machines of the fleet, but not those that are kept for the configuration that was loaded.
    purges :
        {r : Request} (cfg : Option (Config F)) (h : History) (name : Text)
        → (load_config sys env parse connect cfg_path h).0 ≡ ok cfg
        → starts_with vm_prefix name ≡ true
        → keeps cfg opts.purge_all name ≡ false
        → TearsDown name r
        → Uninstalls r

  abbrev Stays : History → History → Type 0
  Stays h h' = Extends Uninstalls h h'

  stop_fleet-Stays : (h : History) → Stays h (stop_fleet sys env parse connect h).1
  stop_fleet-Stays h =
      Returns-state (stop_fleet sys env parse connect h) (Stays h)
        (stop_fleet-Returns sys env parse connect Uninstalls controls removes_unit h)

  load_config-Stays : (h : History) → Stays h (load_config sys env parse connect cfg_path h).1
  unfolding load_config read_text
  load_config-Stays h = asked unchanged _ (reads cfg_path)

  config_token-Stays :
      (cfg : Config F) (h : History) → Stays h (config_token sys env parse connect cfg h).1
  unfolding config_token
  config_token-Stays cfg h = elim (Bool-cases (needs_file (env (codes "VMFLEET_TOKEN")))) [
    | inl needed ↦ rw needed (unfold token_file_text read_text in asked unchanged _ (reads _))
    | inr given ↦ rw given (unfold token_file_text in unchanged)
  ]

  module _ (remote : (gh : GitHub) (t : Text) (c : Client) → connect gh t ≡ ok c → IsRemote c) where
    delete_counted-Stays :
        (c : Client) (rs : List Runner)
        → IsRemote c
        → (n : ℕ) (h : History) → Stays h (delete_counted c n rs h).1
    unfolding delete_counted
    delete_counted-Stays c [] r n h = unchanged
    delete_counted-Stays c (x ∷ rs) r n h =
        Extends-proceed (c.delete_runner x.id h) _
          (Extends-mono (λ q t. remotely t) (r.deletes x.id h))
          (λ _ h'. delete_counted-Stays c rs r _ h')

    delete_records-Stays :
        (gh : GitHub) (t : Text) (o : Result ConfigError Client)
        → connect gh t ≡ o
        → (h : History) → Stays h (delete_records sys env parse connect o h).1
    unfolding delete_records delete_runners_by_prefix
    delete_records-Stays gh t (err e) eq h = unchanged
    delete_records-Stays gh t (ok c) eq h =
        Extends-proceed (c.list_runners h) _
          (Extends-mono (λ q t. remotely t) ((remote gh t c eq).lists h))
          (λ rs h'. delete_counted-Stays c _ (remote gh t c eq) 0 h')

    deregister_with-Stays :
        (cfg : Config F) (t : Result ConfigError Text) (h : History)
        → Stays h (deregister_with sys env parse connect cfg t h).1
    unfolding deregister_with
    deregister_with-Stays cfg (err e) h = unchanged
    deregister_with-Stays cfg (ok t) h = delete_records-Stays cfg.github t _ refl h

    deregister_all-Stays :
        (cfg : Option (Config F)) (h : History)
        → Stays h (deregister_all sys env parse connect cfg h).1
    unfolding deregister_all
    deregister_all-Stays none h = unchanged
    deregister_all-Stays (some cfg) h =
        Extends-proceed (config_token sys env parse connect cfg h) _ (config_token-Stays cfg h)
          (λ t h'. deregister_with-Stays cfg t h')

    purge_listed-Stays :
        (cfg : Option (Config F)) (h0 : History)
        → (load_config sys env parse connect cfg_path h0).0 ≡ ok cfg
        → (vms : List (Text × VmState)) → All (λ vm. starts_with vm_prefix vm.0 ≡ true) vms
        → (h : History) → Stays h (purge_listed sys env parse connect cfg opts.purge_all vms h).1
    unfolding purge_listed
    purge_listed-Stays cfg h0 loaded [] a h = unchanged
    purge_listed-Stays cfg h0 loaded ((name, state) ∷ vms) (p, a) h =
        if_call_by (keeps cfg opts.purge_all name) _ _ h (λ x. Stays h x.1)
          (λ _. purge_listed-Stays cfg h0 loaded vms a h)
          (λ goes.
            Extends-trans
              (Extends-mono (λ r t. purges cfg h0 name loaded p goes t)
                (purge-TearsDown sys name h))
              (purge_listed-Stays cfg h0 loaded vms a _))

    remove_files-Stays :
        (cfg : Option (Config F)) (h0 : History)
        → (load_config sys env parse connect cfg_path h0).0 ≡ ok cfg
        → (b : Bool) → opts.purge_all ≡ b
        → (h : History) → Stays h (remove_files sys env parse connect cfg_path cfg b h).1
    unfolding remove_files remove_token change
    remove_files-Stays cfg h0 loaded false e h = unchanged
    remove_files-Stays none h0 loaded true e h =
        asked (asked unchanged _ (removes_state e)) _ (removes_config e)
    remove_files-Stays (some cfg) h0 loaded true e h =
        asked (asked (asked unchanged _ (removes_token cfg h0 loaded e)) _ (removes_state e)) _
          (removes_config e)

    tear_down-Stays :
        (cfg : Option (Config F)) (h0 : History)
        → (load_config sys env parse connect cfg_path h0).0 ≡ ok cfg
        → (h : History) → Stays h (tear_down sys env parse connect cfg_path opts.purge_all cfg h).1
    unfolding tear_down
    tear_down-Stays cfg h0 loaded h =
        Extends-proceed (deregister_all sys env parse connect cfg h) _ (deregister_all-Stays cfg h)
          (λ _ h1.
            Extends-proceed_by (list_prefixed sys vm_prefix h1) _
              (subst (Stays h1) (sym (list_prefixed-asks sys vm_prefix h1))
                (asked unchanged list_command lists))
              (λ vms h2 e.
                Extends-proceed (purge_listed sys env parse connect cfg opts.purge_all vms h2) _
                  (purge_listed-Stays cfg h0 loaded vms
                    (subst
                      (λ x. OnOk x (λ vms _. All (λ vm. starts_with vm_prefix vm.0 ≡ true) vms)) e
                      (list_prefixed-All sys vm_prefix h1))
                    h2)
                  (λ _ h3. remove_files-Stays cfg h0 loaded opts.purge_all refl h3)))

    uninstall_if-Stays :
        (answer : Bool) (h : History)
        → Stays h (uninstall_if sys env parse connect cfg_path opts.purge_all answer h).1
    unfolding uninstall_if
    uninstall_if-Stays false h = unchanged
    uninstall_if-Stays true h =
        Extends-proceed (stop_fleet sys env parse connect h) _ (stop_fleet-Stays h) (λ _ h1.
          Extends-proceed_by (load_config sys env parse connect cfg_path h1) _
            (load_config-Stays h1) (λ cfg h2 e. tear_down-Stays cfg h1 (ap (λ x. x.0) e) h2))

    -- With clients that touch nothing on the host, and whatever the commands, the files and the user
    -- answer: the command talks to systemctl, the client and the user, reads files, lists the
    -- machines, removes the three unit files, and tears down machines with the fleet's prefix other
    -- than the bases that the loaded configuration keeps. Only where all
    -- is to be purged it removes more: the configuration, its token's file and the directory of the
    -- state.
    pub uninstall-Uninstalls :
        (h : History) → Extends Uninstalls h (uninstall sys env parse connect cfg_path opts h).1
    unfolding uninstall asked_first confirmed
    uninstall-Uninstalls h =
        Extends-proceed (asked_first sys env parse connect opts h) _
          (if_call-after opts.yes _ _ h (Stays h) unchanged (asked unchanged _ (asks _)))
          (λ answer h'. uninstall_if-Stays answer h')
