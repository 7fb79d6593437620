-- ===== src/Worker/Sweep/Stale.antt =====
-- Which machines the sweep of src/worker.rs tears down.
use vmfleet.Prelude.{
  List, [], ◌∷◌, true, false, Option, some, none, Result, ok, err, ◌≡◌, inl, inr, refl, arith, All,
  Bool-cases, filter, subst, sym,
}
use vmfleet.Prelude.Text.{Text, text_eq, starts_with}
use vmfleet.Prelude.Words.{trim}
use vmfleet.Prelude.Act.{OnOk}
use vmfleet.World.{
  System, History, Request, read_file, read_text, Failure, Extends, unchanged, asked, Extends-trans,
  Extends-mono, Extends-proceed,
}
use vmfleet.Github.{Runner, Client, Remote, IsRemote}
use vmfleet.Multipass.{VmState, list_prefixed}
use vmfleet.Multipass.Listing.{list_command, list_prefixed-asks, list_prefixed-All}
use vmfleet.Multipass.Purge.{TearsDown, purge-TearsDown}
use vmfleet.Worker.Sweep.{
  deregister, delete_all, reap, is_left, reap_old, reap_listed, sweep_leftovers, ok_runners, ok_vms,
}

-- The requests of a sweep: it tears down machines with the prefix other than the worker's own.
pub data Sweeps (prefix vm_name state_file : Text) : Request → Type 0 where
  remotely : {r : Request} → Remote r → Sweeps prefix vm_name state_file r
  reads_state : Sweeps prefix vm_name state_file (read_file state_file)
  lists_machines : Sweeps prefix vm_name state_file list_command
  tears_down :
      {r : Request} (name : Text)
      → starts_with prefix name ≡ true
      → text_eq name vm_name ≡ false
      → TearsDown name r
      → Sweeps prefix vm_name state_file r

module _ (sys : System) (client : Client) (remote : IsRemote client) where
  delete_all_total : (rs : List Runner) (h : History) → (delete_all sys client rs h).0 ≡ ok tt
  unfolding delete_all
  delete_all_total [] h = refl
  delete_all_total (r ∷ rs) h = delete_all_total rs (client.delete_runner r.id h).1

  pub deregister_total : (name : Text) (h : History) → (deregister sys client name h).0 ≡ ok tt
  unfolding deregister
  deregister_total name h =
      delete_all_total (filter (λ x. text_eq x.name name) (ok_runners (client.list_runners h).0))
        (client.list_runners h).1

  delete_all-Remote :
      (rs : List Runner) (h : History) → Extends Remote h (delete_all sys client rs h).1
  unfolding delete_all
  delete_all-Remote [] h = unchanged
  delete_all-Remote (r ∷ rs) h =
      Extends-trans (remote.deletes r.id h) (delete_all-Remote rs (client.delete_runner r.id h).1)

  pub deregister-Remote :
      (name : Text) (h : History) → Extends Remote h (deregister sys client name h).1
  unfolding deregister
  deregister-Remote name h = Extends-trans (remote.lists h) (
      delete_all-Remote (filter (λ x. text_eq x.name name) (ok_runners (client.list_runners h).0))
        (client.list_runners h).1)

  module _ (prefix vm_name state_file : Text) where
    abbrev Stays : History → History → Type 0
    Stays h h' = Extends (Sweeps prefix vm_name state_file) h h'

    reap-Stays :
        (name : Text)
        → starts_with prefix name ≡ true
        → text_eq name vm_name ≡ false
        → (h : History) → Stays h (reap sys client name h).1
    unfolding reap
    reap-Stays name p e h =
        Extends-proceed (deregister sys client name h) _
          (Extends-mono (λ r t. remotely t) (deregister-Remote name h))
          (λ _ h'. Extends-mono (λ r t. tears_down name p e t) (purge-TearsDown sys name h'))

    reap_old-Stays :
        (o : Option Text) (h : History) → Stays h (reap_old sys client prefix vm_name o h).1
    unfolding reap_old
    reap_old-Stays none h = unchanged
    reap_old-Stays (some text) h =
        elim (Bool-cases (is_left sys client prefix vm_name (trim text))) [
          | inr e ↦ rw e unchanged
          | inl e ↦ rw e (reap-Stays (trim text) (ground arith) (ground arith) h)
        ]

    reap_listed-Stays :
        (vms : List (Text × VmState)) (h : History)
        → All (λ vm. starts_with prefix vm.0 ≡ true) vms
        → Stays h (reap_listed sys client prefix vm_name vms h).1
    unfolding reap_listed
    reap_listed-Stays [] h a = unchanged
    reap_listed-Stays ((name, state) ∷ vms) h (p, a) = elim (Bool-cases (text_eq name vm_name)) [
      | inl own ↦ rw own (reap_listed-Stays vms h a)
      | inr other ↦ rw other (
          Extends-proceed (reap sys client name h) _ (reap-Stays name p other h)
            (λ _ h'. reap_listed-Stays vms h' a))
    ]

    listed :
        (x : Result Failure (List (Text × VmState)) × History)
        → OnOk x (λ vms _. All (λ vm. starts_with prefix vm.0 ≡ true) vms)
        → All (λ vm. starts_with prefix vm.0 ≡ true) (ok_vms x.0)
    listed (ok vms, h) a = a
    listed (err e, h) a = tt

    -- Whatever the state file says, the client returns and the commands answer, the sweep of a slot
    -- asks the client for its calls, reads the state file, lists the machines, and tears down
    -- machines that start with the slot's prefix and are not the worker's own; for a client that
    -- touches nothing on the host.
    pub sweep_leftovers-Sweeps :
        (h : History)
        → Extends
            (Sweeps prefix vm_name state_file)
            h
            (sweep_leftovers sys client prefix vm_name state_file h).1
    unfolding sweep_leftovers read_text
    sweep_leftovers-Sweeps h =
        let h1 = read_file state_file ∷ h in
        let first : Stays h h1 = asked unchanged (read_file state_file) reads_state in
        Extends-trans first (
          Extends-proceed (reap_old sys client prefix vm_name (sys.on_read h1) h1) _
            (reap_old-Stays (sys.on_read h1) h1)
            (λ _ h2.
              Extends-trans
                (subst (Stays h2) (sym (list_prefixed-asks sys prefix h2))
                  (asked unchanged list_command lists_machines))
                (reap_listed-Stays (ok_vms (list_prefixed sys prefix h2).0)
                  (list_prefixed sys prefix h2).1
                  (listed (list_prefixed sys prefix h2) (list_prefixed-All sys prefix h2)))))
