-- ===== src/Tests/Sample.antt =====
-- A host with two pools: its configuration, its runners and how it answers.
use vmfleet.Prelude.{arith, ℕ, ◌+◌, [], ◌∷◌, true, false, Option, some, none, leb, if◌then◌else◌}
use vmfleet.Prelude.Text.{Text, codes, text_eq}
use vmfleet.Prelude.Decimal.{decimal, parse_u64}
use vmfleet.World.{
  System, CmdOut, History, read_file, broken, disconnected, LockReply, locked, would_block, sleep,
}
use vmfleet.Config.{
  Base, Pool, Config, default_worker, default_storage, default_admission, default_supervisor,
}
use vmfleet.Resources.{Floats}
use vmfleet.Admission.LockWait.{takes, IsClock}

abbrev pub noble : Base
noble = record {
  image = codes "24.04";
  name = codes "vmfleet-base";
  disk = codes "30G";
  cpus = 2;
  memory = codes "4G";
  setup_scripts = [];
  runner_version = codes "2.328.0";
}

abbrev pub small : Pool
small = record {
  name = codes "small";
  labels = codes "self-hosted" ∷ codes "small" ∷ [];
  cpus = 2;
  memory = codes "4G";
  swap = none;
  min_warm = 1;
  cap = 4;
  slot_base = 100;
  base = none;
}

abbrev pub large : Pool
large = record {
  name = codes "large";
  labels = codes "large" ∷ [];
  cpus = 8;
  memory = codes "16G";
  swap = some (codes "4G");
  min_warm = 0;
  cap = 2;
  slot_base = 200;
  base = some (codes "vmfleet-base");
}

-- The numbers stand for `f64`.
abbrev pub fleet : Config ℕ
fleet = record {
  version = 1;
  github = record {
    repo = some (codes "a/b");
    org = none;
    token_file = codes "token";
    runner_group_id = 1;
    api_base = codes "https://api.github.com";
  };
  storage = default_storage;
  admission = default_admission 20;
  bases = noble ∷ [];
  pools = small ∷ large ∷ [];
  supervisor = default_supervisor;
  worker = default_worker;
}

abbrev pub whole_floats : Floats ℕ
whole_floats = record {
  zero_float = 0;
  ge = λ a b. leb b a;
  parse_float = parse_u64;
  show_float = decimal;
}

-- The time that the requests so far took.
abbrev pub elapsed : History → ℕ
elapsed [] = 0
elapsed (r ∷ h) = takes r + elapsed h

abbrev pub file_text : Text → Text
file_text path =
    if text_eq path (codes "/proc/meminfo")
    then codes "MemAvailable: 8388608 kB"
    else codes "some avg10=3 avg60=0"

abbrev file_read : History → Option Text
file_read (read_file path ∷ h) = some (file_text path)
file_read h = none

-- The first try finds the lock taken.
abbrev lock_reply : History → LockReply
lock_reply (r ∷ sleep n ∷ h) = locked
lock_reply h = would_block

abbrev pub done_command : CmdOut
done_command = record { status = some 0; stdout = []; stderr = [] }

abbrev pub host : System
host = record {
  on_command = λ h. some done_command;
  on_http = λ h. broken;
  on_clock = elapsed;
  on_wall_clock = λ h. 1700000000;
  on_read = file_read;
  on_write = λ h. true;
  on_exists = λ h. true;
  on_ask = λ h. some true;
  on_line = λ h. some (codes "o/n");
  on_number = λ h. some 3;
  on_free_space = λ h. some (100000000, 4096);
  on_poll_update = λ h. disconnected;
  on_lock = lock_reply;
  on_spawn = λ h. true;
  on_child = λ h. false;
}

pub host-IsClock : IsClock host
host-IsClock r h = omega arith
