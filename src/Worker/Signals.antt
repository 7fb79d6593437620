-- ===== src/Worker/Signals.antt =====
-- The two threads of a worker in src/worker.rs: the one that leads the machine through its life and
-- cleans up when it returns, and the one that waits for a signal, cleans up and ends the process.
-- A step is what one thread does next; the steps of the two interleave freely.
pub mod Once
pub mod Ends
use vmfleet.Prelude.{Bool, true, false, ◌≡◌}

-- How far a clean-up got. In `stopping` it holds the mutex of `run_child`, with the child that it
-- took, until that was killed and waited for.
pub data Phase : Type 0 where
  begun stopping child_stopped deregistered purged removed : Phase

-- Where the main thread stands in `lifecycle`, and after it in the guard's clean-up. `cloned` is
-- between the end of the clone and the store to `created`; `watching` is before a look at the child,
-- and `asking` between two such looks.
pub data Main : Type 0 where
  preparing cloning cloned working watching asking leaving : Main
  main_cleaning : Phase → Main
  main_finished main_skipped : Main

-- The thread that waits for a signal.
pub data Signal : Type 0 where
  waiting received : Signal
  signal_cleaning : Phase → Signal
  signal_finished signal_skipped : Signal

abbrev pub main_ended : Main → Bool
main_ended main_finished = true
main_ended main_skipped = true
main_ended m = false

abbrev pub signal_ended : Signal → Bool
signal_ended signal_finished = true
signal_ended signal_skipped = true
signal_ended s = false

-- The fields of `Ctx` that change, whether a clean-up holds the mutex of `run_child`, whether the
-- machine exists, and whether the process is alive.
pub record Shared : Type 0 where
  pub created : Bool
  pub child : Bool
  pub held : Bool
  pub cleaned : Bool
  pub vm : Bool
  pub alive : Bool

pub data State : Type 0 where
  state : Main → Signal → Shared → State

abbrev pub started : State
started = state preparing waiting (record {
  created = false;
  child = false;
  held = false;
  cleaned = false;
  vm = false;
  alive = true;
})

-- `lifecycle`: a fallible call may send it to its end from wherever it stands.
pub data Lives : Main × Shared → Main × Shared → Type 0 where
  begins_clone : {c : Shared} → Lives (preparing, c) (cloning, c)
  clones : {c : Shared} → Lives (cloning, c) (cloned, record c { vm = true })
  stores_created : {c : Shared} → Lives (cloned, c) (working, record c { created = true })
  -- The store of the child takes the mutex, and so does each look at the child; either waits where
  -- a clean-up holds it.
  spawns : {c : Shared} → c.held ≡ false → Lives (working, c) (watching, record c { child = true })
  fails_early : {c : Shared} → Lives (preparing, c) (leaving, c)
  fails_clone : {c : Shared} → Lives (cloning, c) (leaving, c)
  fails_later : {c : Shared} → Lives (working, c) (leaving, c)
  sees_child : {c : Shared} → c.held ≡ false → c.child ≡ true → Lives (watching, c) (asking, c)
  -- The child was taken away or has exited.
  misses_child : {c : Shared} → c.held ≡ false → Lives (watching, c) (leaving, c)
  looks_again : {c : Shared} → Lives (asking, c) (watching, c)
  -- The runner did not register in time, or was unhealthy for too long.
  gives_up : {c : Shared} → Lives (asking, c) (leaving, c)

-- `cleanup` behind its first line.
pub data Cleans : Phase × Shared → Phase × Shared → Type 0 where
  takes_child :
      {c : Shared}
      → c.held ≡ false
      → Cleans (begun, c) (stopping, record c { child = false; held = true })
  stops_child : {c : Shared} → Cleans (stopping, c) (child_stopped, record c { held = false })
  deregisters : {c : Shared} → Cleans (child_stopped, c) (deregistered, c)
  purges :
      {c : Shared} → c.created ≡ true → Cleans (deregistered, c) (purged, record c { vm = false })
  fails_purge : {c : Shared} → c.created ≡ true → Cleans (deregistered, c) (purged, c)
  purges_nothing : {c : Shared} → c.created ≡ false → Cleans (deregistered, c) (purged, c)
  removes_file : {c : Shared} → Cleans (purged, c) (removed, c)

-- A step of either thread, while the process is alive.
pub data Step : State → State → Type 0 where
  lives :
      {m m' : Main} {s : Signal} {c c' : Shared}
      → c.alive ≡ true
      → Lives (m, c) (m', c')
      → Step (state m s c) (state m' s c')
  -- The guard: `cleaned.swap(true)` found `false`, or `true`.
  main_enters :
      {s : Signal} {c : Shared}
      → c.alive ≡ true
      → c.cleaned ≡ false
      → Step (state leaving s c) (state (main_cleaning begun) s (record c { cleaned = true }))
  main_skips :
      {s : Signal} {c : Shared}
      → c.alive ≡ true
      → c.cleaned ≡ true
      → Step (state leaving s c) (state main_skipped s c)
  main_cleans :
      {p p' : Phase} {s : Signal} {c c' : Shared}
      → c.alive ≡ true
      → Cleans (p, c) (p', c')
      → Step (state (main_cleaning p) s c) (state (main_cleaning p') s c')
  main_finishes :
      {s : Signal} {c : Shared}
      → c.alive ≡ true
      → Step (state (main_cleaning removed) s c) (state main_finished s c)
  signal_arrives :
      {m : Main} {c : Shared} → c.alive ≡ true → Step (state m waiting c) (state m received c)
  signal_enters :
      {m : Main} {c : Shared}
      → c.alive ≡ true
      → c.cleaned ≡ false
      → Step (state m received c) (state m (signal_cleaning begun) (record c { cleaned = true }))
  signal_skips :
      {m : Main} {c : Shared}
      → c.alive ≡ true
      → c.cleaned ≡ true
      → Step (state m received c) (state m signal_skipped c)
  signal_cleans :
      {p p' : Phase} {m : Main} {c c' : Shared}
      → c.alive ≡ true
      → Cleans (p, c) (p', c')
      → Step (state m (signal_cleaning p) c) (state m (signal_cleaning p') c')
  signal_finishes :
      {m : Main} {c : Shared}
      → c.alive ≡ true
      → Step (state m (signal_cleaning removed) c) (state m signal_finished c)
  -- The end of `run` ends the process, and so does `std::process::exit`.
  main_exits :
      {m : Main} {s : Signal} {c : Shared}
      → c.alive ≡ true
      → main_ended m ≡ true
      → Step (state m s c) (state m s (record c { alive = false }))
  signal_exits :
      {m : Main} {s : Signal} {c : Shared}
      → c.alive ≡ true
      → signal_ended s ≡ true
      → Step (state m s c) (state m s (record c { alive = false }))

-- The states that some steps lead to.
pub data Later (s : State) : State → Type 0 where
  here : Later s s
  then_step : {s' s'' : State} → Later s s' → Step s' s'' → Later s s''
