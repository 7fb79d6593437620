-- ===== src/Commands/BuildBase/Built.antt =====
-- What a base that `build_base` of src/commands.rs built has gone through.
use vmfleet.Prelude.{
  ℕ, suc, ◌++◌, List, [], ◌∷◌, Bool, true, false, some, err, inl, inr, Option-cases, Bool-cases,
  ◌≡◌, refl,
}
use vmfleet.Prelude.Text.{Text, codes}
use vmfleet.Prelude.Decimal.{decimal}
use vmfleet.Prelude.Act.{OnOk, ◌>>=◌, ◌>>◌, pure, try_}
use vmfleet.World.{
  run, System, Io, Extends-mono, Extends-trans, Extends-proceed, checked, unchanged, asked, CmdOut,
  History, Request, command, run, exists, succeeded, not_available,
}
use vmfleet.World.Steps.{
  executed, InOrder, Records, Records-append, Records-of_growth, Records-then, checked-Records,
  checked-Grows,
}
use vmfleet.Multipass.Purge.{purge-TearsDown}
use vmfleet.Config.{Base}
use vmfleet.Multipass.{multipass, purge, stop, list, vm_exists, launch, exec, transfer}
use vmfleet.Commands.BuildBase.{
  remote_script, provision_command, local_script, make_room, clear_name, must_succeed,
  provision_there, provision_all, build_one_base, build_bases,
}

abbrev pub launch_command : Base → Request
launch_command b =
    command multipass
      (codes "launch"
        ∷ b.image
        ∷ codes "--name"
        ∷ b.name
        ∷ codes "--cpus"
        ∷ decimal b.cpus
        ∷ codes "--memory"
        ∷ b.memory
        ∷ codes "--disk"
        ∷ b.disk
        ∷ [])
      (some 900)

abbrev pub transfer_command : Base → Text → ℕ → Request
transfer_command b local i =
    command multipass (codes "transfer" ∷ local ∷ (b.name ++ b':' ∷ remote_script i) ∷ [])
      (some 120)

abbrev pub script_command : Base → ℕ → Request
script_command b i =
    command multipass
      (codes "exec"
        ∷ b.name
        ∷ codes "--"
        ∷ codes "bash"
        ∷ codes "-lc"
        ∷ provision_command b.runner_version i
        ∷ [])
      (some 1800)

abbrev pub info_command : Base → Request
info_command b = command multipass (codes "info" ∷ b.name ∷ []) (some 20)

-- The scripts from number `i` on are copied and run.
abbrev pub script_steps : Base → Text → ℕ → List Text → List Request
script_steps b base_dir i [] = []
script_steps b base_dir i (script ∷ scripts) =
    transfer_command b (local_script base_dir script) i
    ∷ script_command b i
    ∷ script_steps b base_dir (suc i) scripts

abbrev pub build_steps : Text → List Base → List Request
build_steps base_dir [] = []
build_steps base_dir (b ∷ bases) =
    (launch_command b ∷ script_steps b base_dir 0 b.setup_scripts) ++ build_steps base_dir bases

module _ (sys : System) where
  transfer-Records :
      (b : Base) (local : Text) (i : ℕ)
      → Records sys (transfer_command b local i ∷ []) (transfer sys local b.name (remote_script i))
  unfolding transfer
  transfer-Records b local i =
      Records-append sys (transfer_command b local i ∷ []) [] _ (λ _. pure tt)
        (checked-Records sys multipass _ (some 120)) (λ _ h. unchanged)

  launch-Records :
      (b : Base)
      → Records sys (launch_command b ∷ []) (launch sys b.image b.name b.cpus b.memory b.disk)
  unfolding launch
  launch-Records b =
      Records-append sys (launch_command b ∷ []) [] _ (λ _. pure tt)
        (checked-Records sys multipass _ (some 900)) (λ _ h. unchanged)

  -- A script that was run and whose status is checked.
  abbrev run_script : Base → ℕ → Io (Unit {0})
  run_script b i = exec sys b.name (provision_command b.runner_version i) 1800 >>= must_succeed sys

  run_script-Records : (b : Base) (i : ℕ) → Records sys (script_command b i ∷ []) (run_script b i)
  unfolding exec run must_succeed
  run_script-Records b i h = elim (Option-cases (sys.on_command (script_command b i ∷ h))) [
    | inl none_ ↦ rw none_ tt
    | inr (o, some_) ↦ rw some_ (elim (Bool-cases (succeeded o)) [
      | inl done ↦ rw done (h, unchanged, executed multipass _ (some 1800) o some_ done, unchanged)
      | inr failed ↦ rw failed tt
    ])
  ]

  provision_there-Records :
      (b : Base) (i : ℕ) (local : Text) (there : Bool)
      → Records sys
          (transfer_command b local i ∷ script_command b i ∷ [])
          (provision_there sys b i local there)
  unfolding provision_there
  provision_there-Records b i local false h = tt
  provision_there-Records b i local true h =
      Records-append sys (transfer_command b local i ∷ []) (script_command b i ∷ []) _
        (λ _. run_script b i) (transfer-Records b local i) (λ _. run_script-Records b i) h

  provision_all-Records :
      (b : Base) (base_dir : Text) (i : ℕ) (scripts : List Text)
      → Records sys (script_steps b base_dir i scripts) (provision_all sys b base_dir i scripts)
  unfolding provision_all exists
  provision_all-Records b base_dir i [] h = unchanged
  provision_all-Records b base_dir i (script ∷ scripts) h =
      let local = local_script base_dir script in
      Records-append sys [] (script_steps b base_dir i (script ∷ scripts)) (exists sys local) _
        (λ h. asked unchanged _ tt)
        (λ there.
          Records-append sys (transfer_command b local i ∷ script_command b i ∷ [])
            (script_steps b base_dir (suc i) scripts) (provision_there sys b i local there)
            (λ _. provision_all sys b base_dir (suc i) scripts)
            (provision_there-Records b i local there)
            (λ _. provision_all-Records b base_dir (suc i) scripts))
        h

  make_room-Records :
      (name : Text) (force there : Bool) → Records sys [] (make_room sys name force there)
  unfolding make_room
  make_room-Records name force false h = unchanged
  make_room-Records name false true h = tt
  make_room-Records name true true h =
      Records-of_growth sys (purge sys name)
        (λ h. Extends-mono (λ _ _. tt) (purge-TearsDown sys name h)) h

  clear_name-Records : (name : Text) (force : Bool) → Records sys [] (clear_name sys name force)
  unfolding clear_name vm_exists run
  clear_name-Records name force =
      Records-append sys [] [] (vm_exists sys name) (make_room sys name force)
        (λ h. asked unchanged _ tt) (make_room-Records name force)

  -- What a build does once its scripts are run.
  abbrev wind_up : Base → Io (Unit {0})
  wind_up b = try_ (stop sys b.name) >> (try_ (list sys) >> pure tt)

  wind_up-Records : (b : Base) → Records sys [] (wind_up b)
  unfolding stop list
  wind_up-Records b h =
      Extends-trans
        (Extends-proceed (checked sys multipass _ (some 120) h) _
          (checked-Grows sys multipass _ _ h) (λ _ _. unchanged))
        (Extends-proceed (checked sys multipass _ (some 30) (stop sys b.name h).1) _
          (checked-Grows sys multipass _ _ _) (λ _ _. unchanged))

  build_one_base-Records :
      (b : Base) (base_dir : Text) (force : Bool)
      → Records sys
          (launch_command b ∷ script_steps b base_dir 0 b.setup_scripts)
          (build_one_base sys b base_dir force)
  unfolding build_one_base
  build_one_base-Records b base_dir force =
      let scripts = script_steps b base_dir 0 b.setup_scripts in
      Records-append sys [] (launch_command b ∷ scripts) (clear_name sys b.name force) _
        (clear_name-Records b.name force)
        (λ _.
          Records-append sys (launch_command b ∷ []) scripts
            (launch sys b.image b.name b.cpus b.memory b.disk) _ (launch-Records b)
            (λ _.
              Records-append sys [] scripts
                (try_ (exec sys b.name (codes "cloud-init status --wait") 300))
                (λ _. provision_all sys b base_dir 0 b.setup_scripts >> wind_up b)
                (λ h. (unfold exec run in asked unchanged _ tt))
                (λ _.
                  Records-then sys scripts (provision_all sys b base_dir 0 b.setup_scripts)
                    (λ _. wind_up b) (provision_all-Records b base_dir 0 b.setup_scripts)
                    (λ _. wind_up-Records b))))

  build_bases-Records :
      (bases : List Base) (base_dir : Text) (force : Bool)
      → Records sys (build_steps base_dir bases) (build_bases sys bases base_dir force)
  unfolding build_bases
  build_bases-Records [] base_dir force h = unchanged
  build_bases-Records (b ∷ bases) base_dir force h =
      Records-append sys (launch_command b ∷ script_steps b base_dir 0 b.setup_scripts)
        (build_steps base_dir bases) (build_one_base sys b base_dir force)
        (λ _. build_bases sys bases base_dir force) (build_one_base-Records b base_dir force)
        (λ _. build_bases-Records bases base_dir force) h

  -- Where the command succeeds, every base of the list was launched and then its scripts copied and
  -- run in their order, one base after the other, each of these commands with exit status 0.
  pub build_bases-InOrder :
      (bases : List Base) (base_dir : Text) (force : Bool) (h : History)
      → OnOk
          (build_bases sys bases base_dir force h)
          (λ _ h'. InOrder sys (build_steps base_dir bases) h h')
  build_bases-InOrder bases base_dir force h = build_bases-Records bases base_dir force h

  -- An existing machine with a base's name stops a build that is not forced: nothing was asked but
  -- whether it is there, so that the machine is left as it was.
  pub build_one_base_existing :
      (b : Base) (base_dir : Text) (h : History) (o : CmdOut)
      → sys.on_command (info_command b ∷ h) ≡ some o
      → succeeded o ≡ true
      → build_one_base sys b base_dir false h ≡ (err not_available, info_command b ∷ h)
  unfolding build_one_base clear_name make_room vm_exists run
  build_one_base_existing b base_dir h o e done = rw e (rw done refl)
