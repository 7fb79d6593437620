-- ===== src/Config/Types.antt =====
-- The records of src/config.rs with their defaults, and the methods of `GitHub` and `Pool`.
use vmfleet.Prelude.{
  ℕ, zero, suc, ◌+◌, ◌-◌, ◌%◌, ◌++◌, List, [], ◌∷◌, Bool, true, false, ◌&&◌, ◌||◌, Option, none,
  some, Result, ok, err, if◌then◌else◌, ltb, leb, ◌==◌, all, not, length,
}
use vmfleet.Prelude.Text.{Text, codes}
use vmfleet.Prelude.Decimal.{u32_mod}

pub record Worker : Type 0 where
  pub config_timeout_seconds : ℕ
  pub registration_timeout_seconds : ℕ
  pub offline_grace_seconds : ℕ
  pub health_poll_seconds : ℕ
  pub cloud_init_timeout_seconds : ℕ

abbrev pub default_worker : Worker
default_worker = record {
  config_timeout_seconds = 180;
  registration_timeout_seconds = 180;
  offline_grace_seconds = 90;
  health_poll_seconds = 10;
  cloud_init_timeout_seconds = 180;
}

pub record GitHub : Type 0 where
  pub repo : Option Text
  pub org : Option Text
  pub token_file : Text
  pub runner_group_id : ℕ
  pub api_base : Text

pub record Storage : Type 0 where
  pub vault_path : Text

abbrev pub default_storage : Storage
default_storage = record { vault_path = codes "/var/snap/multipass/common" }

pub record Admission (F : Type 0) : Type 0 where
  pub min_avail_mib : ℕ
  pub psi_max : F
  pub min_disk_gib : ℕ
  pub settle_seconds : ℕ
  pub lock_wait_seconds : ℕ
  pub poll_seconds : ℕ

-- The default of `psi_max` is the `f64` 20.0, which is given.
abbrev pub default_admission : {F : Type 0} → F → Admission F
default_admission twenty = record {
  min_avail_mib = 4096;
  psi_max = twenty;
  min_disk_gib = 30;
  settle_seconds = 15;
  lock_wait_seconds = 60;
  poll_seconds = 10;
}

pub record Base : Type 0 where
  pub image : Text
  pub name : Text
  pub disk : Text
  pub cpus : ℕ
  pub memory : Text
  pub setup_scripts : List Text
  pub runner_version : Text

pub record Pool : Type 0 where
  pub name : Text
  pub labels : List Text
  pub cpus : ℕ
  pub memory : Text
  pub swap : Option Text
  pub min_warm : ℕ
  pub cap : ℕ  -- `max`
  pub slot_base : ℕ
  pub base : Option Text

pub record Supervisor : Type 0 where
  pub poll_seconds : ℕ
  pub idle_timeout_seconds : ℕ
  pub max_launch_per_poll : ℕ
  pub busy_reserve_mib : ℕ
  pub use_jit : Bool
  pub queued_poll_every : ℕ
  pub update_check : Bool
  pub update_check_interval_hours : ℕ

abbrev pub default_supervisor : Supervisor
default_supervisor = record {
  poll_seconds = 15;
  idle_timeout_seconds = 900;
  max_launch_per_poll = 2;
  busy_reserve_mib = 2048;
  use_jit = true;
  queued_poll_every = 4;
  update_check = true;
  update_check_interval_hours = 24;
}

pub record Config (F : Type 0) : Type 0 where
  pub version : ℕ
  pub github : GitHub
  pub storage : Storage
  pub admission : Admission F
  pub bases : List Base
  pub pools : List Pool
  pub supervisor : Supervisor
  pub worker : Worker

-- The errors of `scope_path` and `validate`, with what their messages name.
pub data ConfigError : Type 0 where
  both_scopes no_scope no_base no_pool unreadable_token : ConfigError
  bad_base_name duplicate_base : Text → ConfigError
  zero_max no_label bad_pool_name duplicate_pool : Text → ConfigError
  warm_above_max : Text → ℕ → ℕ → ConfigError
  unknown_base : Text → Text → ConfigError
  overlap : Text → Text → ConfigError
  no_such_pool : Text → ConfigError

-- `valid_name`: lower-case letters, digits and dashes, and not empty.
name_char : ℕ → Bool
name_char c = leb b'a' c && leb c b'z' || leb b'0' c && leb c b'9' || c == b'-'

unfoldable pub valid_name : Text → Bool
unfolding name_char
valid_name s = not (length s == 0) && all name_char s

abbrev pub current_version : ℕ
current_version = 1

-- `migrate`: the new configuration, and whether it changed.
unfoldable pub migrate : {F : Type 0} → Config F → Config F × Bool
migrate c =
    if ltb c.version current_version
    then (record c { version = current_version }, true)
    else (c, false)

scope_of : Option Text → Option Text → Result ConfigError Text
scope_of (some r) none = ok (codes "repos/" ++ r)
scope_of none (some o) = ok (codes "orgs/" ++ o)
scope_of (some r) (some o) = err both_scopes
scope_of none none = err no_scope

unfoldable pub scope_path : GitHub → Result ConfigError Text
unfolding scope_of
scope_path g = scope_of g.repo g.org

-- Where not exactly one scope is given, `runner_url` fails as `scope_path` does.
url_of : Option Text → Option Text → Result ConfigError Text
url_of (some r) none = ok (codes "https://github.com/" ++ r)
url_of none (some o) = ok (codes "https://github.com/" ++ o)
url_of (some r) (some o) = err both_scopes
url_of none none = err no_scope

unfoldable pub runner_url : GitHub → Result ConfigError Text
unfolding url_of
runner_url g = url_of g.repo g.org

-- `labels.join(",")`
unfoldable pub join_csv : List Text → Text
join_csv [] = []
join_csv (t ∷ []) = t
join_csv (t ∷ u ∷ ts) = t ++ b',' ∷ join_csv (u ∷ ts)

unfoldable pub labels_csv : Pool → Text
unfolding join_csv
labels_csv p = join_csv p.labels

-- The end of a pool's slots. The sum of two u32 wraps in a release build.
abbrev pub slot_end : Pool → ℕ
slot_end p = (p.slot_base + p.cap) % u32_mod

-- The numbers from `lo`, as many as given.
unfoldable pub range_from : ℕ → ℕ → List ℕ
range_from lo zero = []
range_from lo (suc k) = lo ∷ range_from (suc lo) k

-- `slots`: the range from `slot_base` up to its end, empty where the end is not above.
unfoldable pub slots : Pool → List ℕ
unfolding range_from
slots p = range_from p.slot_base (slot_end p - p.slot_base)
