-- ===== src/Tests/Threads.antt =====
-- Interleavings of the threads of a worker of src/worker.rs.
use vmfleet.Prelude.{true, false, ◌&&◌, ◌||◌, ◌≡◌, ◌≢◌, ◌⊎◌, refl}
use vmfleet.Worker.Signals.{
  Shared, state, started, Later, here, then_step, child_stopped, watching, main_finished,
  main_skipped, main_cleaning, waiting, signal_cleaning, signal_skipped, lives, signal_arrives,
  signal_enters, signal_cleans, begins_clone, clones, stores_created, spawns, takes_child,
  stops_child, stopping,
}
use vmfleet.Worker.Signals.Once.{main_began, signal_began, Later-Once}
use vmfleet.Worker.Signals.Ends.{by_look, clean_up_cut}

-- The signal's clean-up took the child and waits for its end.
abbrev taken : Shared
taken = record {
  created = true;
  child = false;
  held = true;
  cleaned = true;
  vm = true;
  alive = true;
}

-- The child is dead, and the clean-up goes on.
abbrev stopped : Shared
stopped = record taken { held = false }

waits : Later started (state watching (signal_cleaning stopping) taken)
waits =
    then_step
      (then_step
        (then_step
          (then_step
            (then_step (then_step (then_step here (lives refl begins_clone)) (lives refl clones))
              (lives refl stores_created))
            (lives refl (spawns refl)))
          (signal_arrives refl))
        (signal_enters refl refl))
      (signal_cleans refl (takes_child refl))

signalled : Later started (state watching (signal_cleaning child_stopped) stopped)
signalled = then_step waits (signal_cleans refl stops_child)

Later-Once_example :
    ((main_began watching && signal_began (signal_cleaning child_stopped)) ≡ false)
    × (stopped.cleaned ≡ (main_began watching || signal_began (signal_cleaning child_stopped)))
    × ((stopped.alive ≡ true)
        ⊎ (watching ≡ main_finished)
        ⊎ (signal_cleaning child_stopped ≢ waiting))
Later-Once_example = Later-Once watching (signal_cleaning child_stopped) stopped signalled

clean_up_cut_example :
    Later
      (state watching (signal_cleaning child_stopped) stopped)
      (state main_skipped (signal_cleaning child_stopped) (record stopped { alive = false }))
    × Later
        (state (main_cleaning child_stopped) waiting stopped)
        (state (main_cleaning child_stopped) signal_skipped (record stopped { alive = false }))
clean_up_cut_example = clean_up_cut child_stopped watching stopped refl refl (by_look refl)
