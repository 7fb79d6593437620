-- ===== src/World.antt =====
-- What the program asks of the system around it. The state that the calls share is the history of
-- the requests made so far, the latest first; the system answers a request by any function of the
-- history that ends in it. So every run of the program against every behaviour of the system is
-- covered, and a statement about the history is one about the requests and their order.
-- `cmd.rs`: `CmdOut`, the trait `Runner` and `checked`.
pub mod Steps
use vmfleet.Prelude.{
  ℕ, List, ◌∷◌, Bool, false, Option, some, none, Result, ok, err, ◌==◌, if◌then◌else◌, ◌≡◌, refl,
}
use vmfleet.Prelude.Text.{Text}
use vmfleet.Prelude.Act.{Act, proceed}

-- A process that ran. The status is `none` where a signal ended it (-1 in the program).
pub record CmdOut : Type 0 where
  pub status : Option ℕ
  pub stdout : Text
  pub stderr : Text

-- `CmdOut::ok`
abbrev is_zero : Option ℕ → Bool
is_zero none = false
is_zero (some n) = n == 0

unfoldable pub succeeded : CmdOut → Bool
succeeded o = is_zero o.status

-- Durations are in seconds.
pub data Request : Type 0 where
  command : Text → List Text → Option ℕ → Request
  http : Text → Text → Option Text → Option Text → Request  -- method, URL, token, body
  read_clock read_wall_clock : Request
  read_file : Text → Request
  write_file : Text → Text → Request
  open_file : Text → Request
  rename_file : Text → Text → Request
  remove_file : Text → Request
  make_dir : Text → Request
  set_mode replace_self : Text → Request  -- of a file to 0o755, and of the running program
  remove_tree : Text → Request  -- `remove_dir_all`
  set_private : Text → Request  -- to 0o600
  path_exists ask_user : Text → Request
  ask_line ask_number : Text → Request  -- an input, whose prompt may offer a default
  free_space : Text → Request
  poll_update start_update : Request
  try_lock unlock : Text → Request
  spawn_child : List Text → Request
  poll_child kill_child : Request
  sleep : ℕ → Request

abbrev pub History : Type 0
History = List Request

-- A response of an HTTP server, with the headers that the program reads.
pub record Response : Type 0 where
  pub code : ℕ
  pub retry_after : Option Text
  pub ratelimit_remaining : Option Text
  pub ratelimit_reset : Option Text
  pub link : Option Text
  pub body : Text

-- `ureq`'s result: a success, an error status with its response, or a failed transport.
pub data Reply : Type 0 where
  response : Response → Reply
  refused : Response → Reply
  broken : Reply

-- What `try_recv` finds.
pub data Received : Type 0 where
  arrived : Option Text → Received
  disconnected pending : Received

pub data LockReply : Type 0 where
  locked would_block lock_error : LockReply

-- How the system answers the request at the head of the history. Instants are in nanoseconds.
pub record System : Type 0 where
  pub on_command : History → Option CmdOut  -- `none`: it was not started, or it timed out
  pub on_http : History → Reply
  pub on_clock : History → ℕ
  pub on_wall_clock : History → ℕ  -- seconds since the epoch
  pub on_read : History → Option Text
  pub on_write : History → Bool
  pub on_exists : History → Bool
  pub on_ask : History → Option Bool  -- the user's answer; `none`: there is no terminal
  pub on_line : History → Option Text
  pub on_number : History → Option ℕ  -- a `u32`
  pub on_free_space : History → Option (ℕ × ℕ)  -- blocks available, and their size
  pub on_poll_update : History → Received
  pub on_lock : History → LockReply
  pub on_spawn : History → Bool
  pub on_child : History → Bool  -- whether the child is still running

-- The errors of a failed call, as far as the program tells them apart or reports them.
pub data Failure : Type 0 where
  no_command : Text → Failure  -- not started, or timed out
  exited : Text → Option ℕ → Failure
  http_status : ℕ → Failure
  transport rate_limited no_attempt bad_json : Failure
  foreign_host : Text → Failure
  purge_failed : Text → Failure
  config_failed bad_provision bad_token : Failure
  lock_timeout lock_broken : Failure
  already_running : Failure
  not_ready not_registered child_exited not_spawned not_available : Failure
  bad_release bad_checksum bad_archive io_failed : Failure
  unfinished : Failure  -- the rounds given to a loop ran out

-- A call that cannot fail.
abbrev pub Total : Type 0 → Type 0
Total A = History → A × History

abbrev pub Io : Type 0 → Type 0
Io A = Act History Failure A

abbrev pub total : {A : Type 0} → Total A → Io A
total m h = let (a, h') = m h in (ok a, h')

module _ (sys : System) where
  abbrev pub ran : Text → Option CmdOut → Result Failure CmdOut
  ran program none = err (no_command program)
  ran program (some o) = ok o

  -- `Runner::run`
  unfoldable pub run : Text → List Text → Option ℕ → Io CmdOut
  run program args timeout h =
      let h' = command program args timeout ∷ h in (ran program (sys.on_command h'), h')

  abbrev pub require : Text → Result Failure CmdOut → Result Failure Text
  require program (err e) = err e
  require program (ok o) = if succeeded o then ok o.stdout else err (exited program o.status)

  -- `checked`
  unfoldable pub checked : Text → List Text → Option ℕ → Io Text
  unfolding run succeeded
  checked program args timeout h =
      let (r, h') = run program args timeout h in (require program r, h')

  -- `Instant::now()`
  unfoldable pub now : Io ℕ
  now h = let h' = read_clock ∷ h in (ok (sys.on_clock h'), h')

  unfoldable pub wall_clock : Io ℕ
  wall_clock h = let h' = read_wall_clock ∷ h in (ok (sys.on_wall_clock h'), h')

  -- A change of the file system, for its success.
  unfoldable pub change : Request → Io Bool
  change r h = let h' = r ∷ h in (ok (sys.on_write h'), h')

  unfoldable pub exists : Text → Io Bool
  exists path h = let h' = path_exists path ∷ h in (ok (sys.on_exists h'), h')

  unfoldable pub ask : Text → Io (Option Bool)
  ask prompt h = let h' = ask_user prompt ∷ h in (ok (sys.on_ask h'), h')

  abbrev entered : {A : Type 0} → Option A → Result Failure A
  entered none = err not_available
  entered (some a) = ok a

  -- `interact_text`
  unfoldable pub input_text : Text → Io Text
  input_text prompt h = let h' = ask_line prompt ∷ h in (entered (sys.on_line h'), h')

  unfoldable pub input_number : Text → Io ℕ
  input_number prompt h = let h' = ask_number prompt ∷ h in (entered (sys.on_number h'), h')

  -- `interact()?`
  unfoldable pub confirmed : Text → Io Bool
  confirmed prompt h = let h' = ask_user prompt ∷ h in (entered (sys.on_ask h'), h')

  unfoldable pub read_text : Text → Io (Option Text)
  read_text path h = let h' = read_file path ∷ h in (ok (sys.on_read h'), h')

  unfoldable pub pause : ℕ → Io (Unit {0})
  pause n h = (ok tt, sleep n ∷ h)

-- The second history is the first one with further requests, each of which meets `P`.
pub data Extends (P : Request → Type 0) (h : History) : History → Type 0 where
  unchanged : Extends P h h
  asked : {h' : History} → Extends P h h' → (r : Request) → P r → Extends P h (r ∷ h')

pub Extends-trans :
    {P : Request → Type 0} {h h' h'' : History}
    → Extends P h h'
    → Extends P h' h''
    → Extends P h h''
Extends-trans e unchanged = e
Extends-trans e (asked e' r p) = asked (Extends-trans e e') r p

pub Extends-mono :
    {P Q : Request → Type 0} {h h' : History}
    → ((r : Request) → P r → Q r)
    → Extends P h h'
    → Extends Q h h'
Extends-mono f unchanged = unchanged
Extends-mono f (asked e r p) = asked (Extends-mono f e) r (f r p)

pub Extends-proceed :
    {P : Request → Type 0} {A B : Type 0} {h : History} (x : Result Failure A × History)
    (f : A → Io B)
    → Extends P h x.1
    → ((a : A) (h' : History) → Extends P h' (f a h').1)
    → Extends P h (proceed x f).1
Extends-proceed (ok a, h') f e k = Extends-trans e (k a h')
Extends-proceed (err x, h') f e k = e

-- As `Extends-proceed`, with the equation for what follows.
pub Extends-proceed_by :
    {P : Request → Type 0} {A B : Type 0} {h : History} (x : Result Failure A × History)
    (f : A → Io B)
    → Extends P h x.1
    → ((a : A) (h' : History)
        → ◌≡◌ {A = Result Failure A × History} x (ok a, h')
        → Extends P h' (f a h').1)
    → Extends P h (proceed x f).1
Extends-proceed_by (ok a, h') f e k = Extends-trans e (k a h' refl)
Extends-proceed_by (err x, h') f e k = e
