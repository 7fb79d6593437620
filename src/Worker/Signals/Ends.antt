-- ===== src/Worker/Signals/Ends.antt =====
-- How a worker of src/worker.rs comes to its end, and how one thread's end cuts the other's clean-up
-- short.
use vmfleet.Prelude.{◌&&◌, ◌||◌, Bool, true, false, ◌≡◌, refl}
use vmfleet.Worker.Signals.{
  Phase, Main, Signal, Shared, State, state, Later, here, then_step, watching, leaving,
  main_cleaning, main_skipped, waiting, signal_cleaning, signal_skipped, lives, main_skips,
  main_exits, signal_arrives, signal_skips, signal_exits, misses_child, gives_up, Lives, asking,
  stopping,
}

abbrev Dead : State → Type 0
Dead (state m s c) = c.alive ≡ false

-- Some steps from here end the process.
abbrev pub CanEnd : State → Type 0
CanEnd x = (y : State) × Later x y × Dead y

-- Whether a thread holds the mutex.
abbrev holds : Phase → Bool
holds stopping = true
holds p = false

abbrev main_holds : Main → Bool
main_holds (main_cleaning p) = holds p
main_holds m = false

abbrev signal_holds : Signal → Bool
signal_holds (signal_cleaning p) = holds p
signal_holds s = false

-- The mutex is held exactly where one of the threads stops the child, and not both do.
abbrev Locked : State → Type 0
Locked (state m s c) =
    (c.held ≡ (main_holds m || signal_holds s)) × ((main_holds m && signal_holds s) ≡ false)

-- A main thread that looks at the child after the mutex is free, or that is between two looks, can
-- find the child gone or give up, whichever it is.
pub data CanLeave (c : Shared) : Main → Type 0 where
  by_look : c.held ≡ false → CanLeave c watching
  by_time : CanLeave c asking

leave : {m : Main} {c : Shared} → CanLeave c m → Lives (m, c) (leaving, c)
leave (by_look free) = misses_child free
leave by_time = gives_up

-- Either thread can cut the clean-up of the other one short, wherever that stands and whatever it
-- has not done yet, once `cleaned` is set: a main thread that can leave its watch of the runner (at
-- a look at the child once the mutex is free, or between two looks at any time) skips the clean-up
-- that the signal's thread began and ends the process, and a signal that arrives during the main
-- thread's clean-up ends it as well. The machine is left as it was.
pub clean_up_cut :
    (p : Phase) (m : Main) (c : Shared)
    → c.alive ≡ true
    → c.cleaned ≡ true
    → CanLeave c m
    → Later
        (state m (signal_cleaning p) c)
        (state main_skipped (signal_cleaning p) (record c { alive = false }))
      × Later
          (state (main_cleaning p) waiting c)
          (state (main_cleaning p) signal_skipped (record c { alive = false }))
clean_up_cut p m c a set can = (
  then_step (then_step (then_step here (lives a (leave can))) (main_skips a set))
      (main_exits a refl),
  then_step (then_step (then_step here (signal_arrives a)) (signal_skips a set))
      (signal_exits a refl),
)
