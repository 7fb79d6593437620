-- ===== src/Tests/Start.antt =====
-- The start of the supervisor of src/supervisor.rs at the sample host.
use vmfleet.Prelude.{ℕ, [], true, false, Option, some, none, Result, ok, ◌≡◌}
use vmfleet.Prelude.Text.{Text, codes}
use vmfleet.World.{System, locked}
use vmfleet.Config.{ConfigError, GitHub}
use vmfleet.Github.{Client}
use vmfleet.Github.Calls.{client_of}
use vmfleet.Supervisor.Report.{Report}
use vmfleet.Supervisor.Start.{run, serve, tried, Guards, run-Guards}
use vmfleet.Tests.Sample.{fleet, host, whole_floats}
use vmfleet.Tests.Server.{endpoint, json}

abbrev free_host : System
free_host = record host { on_lock = λ h. locked }

abbrev no_env : Text → Option Text
no_env name = none

abbrev connect : GitHub → Text → Result ConfigError Client
connect gh t = ok (client_of free_host json endpoint 5)

abbrev to_json : Report ℕ → Option Text
to_json report = some []

abbrev version : Text
version = codes "0.1.0"

abbrev cfg_path : Text
cfg_path = codes "/etc/vmfleet.toml"

abbrev exe : Option Text
exe = some (codes "/usr/bin/vmfleet")

run-Guards_example :
    Guards whole_floats free_host no_env connect to_json version fleet cfg_path true 1 []
      (run whole_floats free_host no_env connect to_json version fleet cfg_path true 1 false exe [])
      (run whole_floats free_host no_env connect to_json version fleet cfg_path true 1 false exe []
        ≡ serve whole_floats free_host no_env connect to_json version fleet cfg_path true 1 false
            exe
            (tried whole_floats free_host no_env connect to_json version fleet cfg_path true 1 []))
run-Guards_example =
    run-Guards whole_floats free_host no_env connect to_json version fleet cfg_path true 1 exe []
