-- ===== src/Multipass.antt =====
-- src/multipass.rs: the wrapper of `multipass`.
pub mod Listing
pub mod Purge
use vmfleet.Prelude.{
  ℕ, ◌++◌, List, [], ◌∷◌, Bool, true, false, Option, some, none, Result, ok, err, filter, map,
  if◌then◌else◌, length, ◌==◌,
}
use vmfleet.Prelude.Text.{Text, codes, text_eq, starts_with, split}
use vmfleet.Prelude.Words.{lines, trim}
use vmfleet.Prelude.Decimal.{decimal}
use vmfleet.Prelude.Act.{◌>>=◌, ◌>>◌, pure, try_, fail}
use vmfleet.World.{System, CmdOut, Io, Failure, purge_failed, run, checked, succeeded}

pub data VmState : Type 0 where
  running stopped starting suspended : VmState
  unknown : Text → VmState

-- `VmState::parse`
unfoldable pub parse_state : Text → VmState
parse_state s =
    let t = trim s in
    if text_eq t (codes "Running")
    then running
    else if text_eq t (codes "Stopped")
    then stopped
    else if text_eq t (codes "Starting")
    then starting
    else if text_eq t (codes "Suspended")
    then suspended
    else unknown t

-- The first two columns of a line, empty where they are missing.
unfoldable pub columns : List Text → Text × Text
columns [] = ([], [])
columns (n ∷ []) = (trim n, [])
columns (n ∷ s ∷ more) = (trim n, trim s)

-- A line of the table below its header.
unfoldable pub parse_rows : List Text → List (Text × VmState)
unfolding columns parse_state
parse_rows [] = []
parse_rows (line ∷ more) =
    let rest = parse_rows more in
    let (name, state) = columns (split b',' line) in
    if length (trim line) == 0
    then rest
    else if length name == 0
    then rest
    else (name, parse_state state) ∷ rest

abbrev without_header : List Text → List Text
without_header [] = []
without_header (header ∷ more) = more

unfoldable pub parse_list_csv : Text → List (Text × VmState)
unfolding parse_rows
parse_list_csv csv = parse_rows (without_header (lines csv))

abbrev pub multipass : Text
multipass = codes "multipass"

module _ (sys : System) where
  abbrev ok_out : Result Failure CmdOut → Bool
  ok_out (err e) = false
  ok_out (ok o) = succeeded o

  unfoldable pub available : Io Bool
  available = do r ← try_ (run sys multipass (codes "version" ∷ []) (some 10)); pure (ok_out r)

  -- `exists`
  unfoldable pub vm_exists : Text → Io Bool
  vm_exists name = do
    r ← try_ (run sys multipass (codes "info" ∷ name ∷ []) (some 20))
    pure (ok_out r)

  unfoldable pub list : Io (List (Text × VmState))
  list = do
    out ← checked sys multipass (codes "list" ∷ codes "--format" ∷ codes "csv" ∷ []) (some 30)
    pure (parse_list_csv out)

  unfoldable pub list_prefixed : Text → Io (List (Text × VmState))
  unfolding list
  list_prefixed prefix = do vms ← list; pure (filter (λ vm. starts_with prefix vm.0) vms)

  unfoldable pub clone_from : Text → Text → Io (Unit {0})
  clone_from base name = do
    checked sys multipass (codes "clone" ∷ base ∷ codes "--name" ∷ name ∷ []) (some 180)
    pure tt

  -- `set`
  unfoldable pub set_key : Text → Text → Io (Unit {0})
  set_key key value = do
    checked sys multipass (codes "set" ∷ (key ++ b'=' ∷ value) ∷ []) (some 30)
    pure tt

  unfoldable pub set_cpus : Text → ℕ → Io (Unit {0})
  unfolding set_key
  set_cpus vm cpus = set_key (codes "local." ++ (vm ++ codes ".cpus")) (decimal cpus)

  unfoldable pub set_memory : Text → Text → Io (Unit {0})
  unfolding set_key
  set_memory vm mem = set_key (codes "local." ++ (vm ++ codes ".memory")) mem

  unfoldable pub start : Text → Io (Unit {0})
  start name = do checked sys multipass (codes "start" ∷ name ∷ []) (some 180); pure tt

  unfoldable pub exec : Text → Text → ℕ → Io CmdOut
  exec name script timeout =
      run sys multipass
        (codes "exec" ∷ name ∷ codes "--" ∷ codes "bash" ∷ codes "-lc" ∷ script ∷ []) (some timeout)

  force_stop : Text → Io CmdOut
  force_stop name = run sys multipass (codes "stop" ∷ codes "--force" ∷ name ∷ []) (some 60)

  unfoldable pub delete : Text → Io CmdOut
  delete name = run sys multipass (codes "delete" ∷ name ∷ codes "--purge" ∷ []) (some 90)

  -- The retry, with the result of the first attempt at hand.
  retry_delete : Text → Bool → Io (Unit {0})
  unfolding force_stop delete
  retry_delete name true = pure tt
  retry_delete name false = do
    try_ (force_stop name)
    o2 ← delete name
    if succeeded o2 then pure tt else fail (purge_failed name)

  unfoldable pub purge : Text → Io (Unit {0})
  unfolding retry_delete
  purge name = do
    try_ (run sys multipass (codes "stop" ∷ name ∷ codes "--cancel" ∷ []) (some 60))
    try_ (force_stop name)
    o ← delete name
    retry_delete name (succeeded o)

  unfoldable pub stop : Text → Io (Unit {0})
  stop name = do checked sys multipass (codes "stop" ∷ name ∷ []) (some 120); pure tt

  unfoldable pub transfer : Text → Text → Text → Io (Unit {0})
  transfer local vm remote = do
    checked sys multipass (codes "transfer" ∷ local ∷ (vm ++ b':' ∷ remote) ∷ []) (some 120)
    pure tt

  unfoldable pub launch : Text → Text → ℕ → Text → Text → Io (Unit {0})
  launch image name cpus memory disk = do
    checked sys multipass
        (codes "launch"
          ∷ image
          ∷ codes "--name"
          ∷ name
          ∷ codes "--cpus"
          ∷ decimal cpus
          ∷ codes "--memory"
          ∷ memory
          ∷ codes "--disk"
          ∷ disk
          ∷ [])
        (some 900)
    pure tt
