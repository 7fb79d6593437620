-- ===== src/Worker/Signals/Once.antt =====
-- At most one of the two threads of src/worker.rs cleans up.
use vmfleet.Prelude.{Bool, true, false, not, ◌&&◌, ◌||◌, ◌≡◌, refl, arith, ◌⊎◌, inl, inr, ◌≢◌}
use vmfleet.Worker.Signals.{
  Phase, Main, Signal, Shared, State, state, started, main_ended, signal_ended, Lives, Cleans, Step,
  Later, here, then_step, preparing, cloning, cloned, working, watching, asking, leaving,
  main_cleaning, main_finished, main_skipped, waiting, received, signal_cleaning, signal_finished,
  signal_skipped, lives, main_enters, main_skips, main_cleans, main_finishes, signal_arrives,
  signal_enters, signal_skips, signal_cleans, signal_finishes, main_exits, signal_exits,
  begins_clone, clones, stores_created, spawns, fails_early, fails_clone, fails_later, sees_child,
  misses_child, looks_again, gives_up, takes_child, stops_child, deregisters, purges, fails_purge,
  purges_nothing, removes_file,
}

-- The thread began a clean-up, or found one begun.
abbrev pub main_began : Main → Bool
main_began (main_cleaning p) = true
main_began main_finished = true
main_began m = false

abbrev pub signal_began : Signal → Bool
signal_began (signal_cleaning p) = true
signal_began signal_finished = true
signal_began s = false

abbrev is_main_skipped : Main → Bool
is_main_skipped main_skipped = true
is_main_skipped m = false

abbrev is_signal_skipped : Signal → Bool
is_signal_skipped signal_skipped = true
is_signal_skipped s = false

-- `cleaned` says that one of the threads began, and not both did; a thread that skipped its
-- clean-up found the other one's; the process is alive until one of them ended.
abbrev Guarded : Main → Signal → Shared → Type 0
Guarded m s c =
    (c.cleaned ≡ (main_began m || signal_began s))
    × ((main_began m && signal_began s) ≡ false)
    × ((not (is_main_skipped m) || signal_began s) ≡ true)
    × ((not (is_signal_skipped s) || main_began m) ≡ true)
    × ((c.alive || (main_ended m || signal_ended s)) ≡ true)

abbrev GuardedState : State → Type 0
GuardedState (state m s c) = Guarded m s c

Lives-Guarded :
    {m m' : Main} {c c' : Shared} (s : Signal)
    → Lives (m, c) (m', c')
    → Guarded m s c
    → Guarded m' s c'
Lives-Guarded s begins_clone g = g
Lives-Guarded s clones g = g
Lives-Guarded s stores_created g = g
Lives-Guarded s (spawns e) g = g
Lives-Guarded s fails_early g = g
Lives-Guarded s fails_clone g = g
Lives-Guarded s fails_later g = g
Lives-Guarded s (sees_child e e') g = g
Lives-Guarded s (misses_child e) g = g
Lives-Guarded s looks_again g = g
Lives-Guarded s gives_up g = g

main_phase-Guarded :
    {p p' : Phase} {c c' : Shared} (s : Signal)
    → Cleans (p, c) (p', c')
    → Guarded (main_cleaning p) s c
    → Guarded (main_cleaning p') s c'
main_phase-Guarded s (takes_child e) g = g
main_phase-Guarded s stops_child g = g
main_phase-Guarded s deregisters g = g
main_phase-Guarded s (purges e) g = g
main_phase-Guarded s (fails_purge e) g = g
main_phase-Guarded s (purges_nothing e) g = g
main_phase-Guarded s removes_file g = g

signal_phase-Guarded :
    {p p' : Phase} {c c' : Shared} (m : Main)
    → Cleans (p, c) (p', c')
    → Guarded m (signal_cleaning p) c
    → Guarded m (signal_cleaning p') c'
signal_phase-Guarded m (takes_child e) g = g
signal_phase-Guarded m stops_child g = g
signal_phase-Guarded m deregisters g = g
signal_phase-Guarded m (purges e) g = g
signal_phase-Guarded m (fails_purge e) g = g
signal_phase-Guarded m (purges_nothing e) g = g
signal_phase-Guarded m removes_file g = g

Step-Guarded : {x y : State} → Step x y → GuardedState x → GuardedState y
Step-Guarded (lives {s} a l) g = Lives-Guarded s l g
Step-Guarded (main_enters a e) (f, o, l, r, d) =
    (ground arith, ground arith, ground arith, ground arith, ground arith)
Step-Guarded (main_skips a e) (f, o, l, r, d) =
    (ground arith, ground arith, ground arith, ground arith, ground arith)
Step-Guarded (main_cleans {s = s} a l) g = main_phase-Guarded s l g
Step-Guarded (main_finishes a) (f, o, l, r, d) = (f, o, l, r, ground arith)
Step-Guarded (signal_arrives a) g = g
Step-Guarded (signal_enters a e) (f, o, l, r, d) =
    (ground arith, ground arith, ground arith, ground arith, ground arith)
Step-Guarded (signal_skips a e) (f, o, l, r, d) =
    (ground arith, ground arith, ground arith, ground arith, ground arith)
Step-Guarded (signal_cleans {m = m} a l) g = signal_phase-Guarded m l g
Step-Guarded (signal_finishes a) (f, o, l, r, d) =
    (ground arith, ground arith, ground arith, ground arith, ground arith)
Step-Guarded (main_exits a e) (f, o, l, r, d) = (f, o, l, r, ground arith)
Step-Guarded (signal_exits a e) (f, o, l, r, d) = (f, o, l, r, ground arith)

Later-Guarded : {x : State} → Later started x → GuardedState x
Later-Guarded here = (refl, refl, refl, refl, refl)
Later-Guarded (then_step p q) = Step-Guarded q (Later-Guarded p)

unless_signalled :
    (m : Main) (s : Signal) (c : Shared)
    → (not (is_main_skipped m) || signal_began s) ≡ true
    → (c.alive || (main_ended m || signal_ended s)) ≡ true
    → (c.alive ≡ true) ⊎ (m ≡ main_finished) ⊎ (s ≢ waiting)
unless_signalled m received c l d = inr (inr (λ e. cc))
unless_signalled m (signal_cleaning p) c l d = inr (inr (λ e. cc))
unless_signalled m signal_finished c l d = inr (inr (λ e. cc))
unless_signalled m signal_skipped c l d = inr (inr (λ e. cc))
unless_signalled main_finished waiting c l d = inr (inl refl)
unless_signalled main_skipped waiting c l d = cc
unless_signalled preparing waiting c l d = inl (ground arith)
unless_signalled cloning waiting c l d = inl (ground arith)
unless_signalled cloned waiting c l d = inl (ground arith)
unless_signalled working waiting c l d = inl (ground arith)
unless_signalled watching waiting c l d = inl (ground arith)
unless_signalled asking waiting c l d = inl (ground arith)
unless_signalled leaving waiting c l d = inl (ground arith)
unless_signalled (main_cleaning p) waiting c l d = inl (ground arith)

-- In every interleaving of the two threads at most one of them cleans up, the flag is set exactly
-- when one of them began to, and where no signal was received the process has not ended before the
-- main thread finished its clean-up.
pub Later-Once :
    (m : Main) (s : Signal) (c : Shared)
    → Later started (state m s c)
    → ((main_began m && signal_began s) ≡ false)
      × (c.cleaned ≡ (main_began m || signal_began s))
      × ((c.alive ≡ true) ⊎ (m ≡ main_finished) ⊎ (s ≢ waiting))
Later-Once m s c p = let (f, o, l, r, d) = Later-Guarded p in (o, f, unless_signalled m s c l d)
