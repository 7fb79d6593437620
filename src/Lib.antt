-- ===== src/Lib.antt =====
-- vmfleet keeps fleets of self-hosted GitHub runners in virtual machines. A supervisor observes the
-- registered runners, the active units and the host, and in each cycle launches worker units or
-- stops idle ones; a worker clones, starts and tears down one machine behind an admission gate that
-- all workers share; commands collect garbage and change the configuration.
--
-- The files and the code that they model (paths from the repository's root):
--   Naming             src/naming.rs, and slot_from_unit of src/supervisor.rs
--   Paths              src/paths.rs
--   Config             src/config.rs: Types the records, Validate the checks and load
--   World              src/cmd.rs: what the program asks of the system around it
--   Systemd            src/systemd.rs
--   Multipass          src/multipass.rs
--   Resources          src/resources.rs
--   Admission          src/admission.rs
--   Selfupdate         src/selfupdate.rs: Version the versions and the choice of a release, Names the
--                      helpers on texts, Download the requests, Choice and Install the update
--   Github             src/github.rs: the runners, and the interface of the client that the other
--                      parts use; Requests a request with its attempts, Calls the client
--   Supervisor         src/supervisor.rs: Demand and Observe what a cycle computes, Scale what it
--                      does to the pools, Update the passive update check, Report what it writes,
--                      Cycle one reconcile pass and the loop of run, Start the lock and run
--   Worker             src/worker.rs: Sweep, Health (the loops that wait), Lifecycle (the life of a
--                      machine and the clean-up), Signals (the interleavings of the two threads)
--   Commands           src/commands.rs: Gc, Rescale and Scale, Uninstall, BuildBase,
--                      Install and Setup (the dialogue that makes a configuration)
--   Tests              runs on concrete data
-- Prelude holds what the others share: list helpers over the native numbers, results, calls with a
-- state (Act), texts, decimal numbers, words and lines, and sorting. The modules below a component
-- hold its theorems.
--
-- State. Every effect is a request to the system (World.Request): a command, a file access, a
-- reading of a clock, a lock, a pause. The state that the calls pass on is the history of the
-- requests, and the system answers each by any function of the history. A statement on all systems
-- covers every behaviour of the machines, the services and the clock, failures included. `?` is the
-- bind of Prelude.Act, `let _ =` and `.ok()` are `try_`.
--
-- Threads. A worker has a second thread that waits for signals. Its interleavings with the main
-- thread are a step relation on the fields that they share, with the mutex of the child, which a
-- clean-up holds until the child is dead; the sequential model of the lifecycle is that of a worker
-- that gets no signal.
--
-- Numbers. u32 and u64 are natural numbers with the wrap-around or the saturation of the source
-- written out; a sum or product that would overflow wraps, as in a release build. `clamp` panics
-- where a pool's warm floor is above its cap, which no configuration that `validate` accepted has;
-- the model gives a number there, which tells nothing of the program. f64 is a type with the
-- operations that the code uses (Resources.Floats). Texts are lists of codes.
--
-- Loops. Loops over collections are structural. The loop for the admission lock and the wait under
-- it run on a number of rounds and fail with `unfinished` where these run out, as do the loops of a
-- worker. For the lock and for the registration enough rounds are given by theorems; the wait for a
-- host under pressure and the health monitor have no bound in the code either. A listing of runners
-- reads a number of pages; that a number that suffices gives the result is a theorem. The supervisor's loop
-- without end is run for a number of rounds.
--
-- Given, and not modelled: the parsers and printers of TOML and JSON, the HTTP client (a request
-- holds its method, URL, token and body, not its other headers), SHA-256, tar and gzip, the
-- replacement of a running program, the environment's variables, the inputs of the install's
-- dialogue with their defaults, the processes behind a command, flock. Not modelled: doctor and
-- status, the command line, and messages.
pub mod Prelude
pub mod Naming
pub mod Paths
pub mod Config
pub mod World
pub mod Systemd
pub mod Multipass
pub mod Resources
pub mod Admission
pub mod Selfupdate
pub mod Github
pub mod Supervisor
pub mod Worker
pub mod Commands
mod Tests
