-- ===== src/Worker/Lifecycle/Cleanup.antt =====
-- What the guard of src/worker.rs has done when a worker ends.
use vmfleet.Prelude.{ℕ, ◌∷◌, Bool, true, false, Option, ok, ◌≡◌, refl, sym, ap, subst, ◌∙◌}
use vmfleet.Prelude.Text.{Text}
use vmfleet.Prelude.Act.{proceed-ok}
use vmfleet.World.{
  System, History, Request, kill_child, remove_file, change, Extends, unchanged, asked,
  Extends-trans, Extends-mono,
}
use vmfleet.Config.{Config, Pool}
use vmfleet.Resources.{Floats}
use vmfleet.Github.{Client, Remote, IsRemote}
use vmfleet.Multipass.Purge.{TearsDown, delete_command, purge-asks}
use vmfleet.Worker.Sweep.{deregister}
use vmfleet.Worker.Sweep.Stale.{deregister-Remote, deregister_total}
use vmfleet.Worker.Lifecycle.Tracked.{Tracks, lifecycle-Tracks}
use vmfleet.Worker.Lifecycle.{
  Stage, before_clone, kill_running, purge_created, cleanup, lifecycle, work,
}

-- The requests of a clean-up.
pub data Cleans (vm state_file : Text) : Request → Type 0 where
  kills : Cleans vm state_file kill_child
  remotely : {r : Request} → Remote r → Cleans vm state_file r
  tears_down : {r : Request} → TearsDown vm r → Cleans vm state_file r
  removes : Cleans vm state_file (remove_file state_file)

module _ (vm state_file : Text) where
  -- The history goes on to a later one by requests of a clean-up.
  abbrev pub GoesOn : History → History → Type 0
  GoesOn h h' = Extends (Cleans vm state_file) h h'

  -- A child that runs is killed first, and a machine that was created is told to be deleted.
  abbrev pub Killed : Bool → History → History → Type 0
  Killed false h h' = GoesOn h h'
  Killed true h h' = GoesOn (kill_child ∷ h) h'

  abbrev pub ToldToDelete : Bool → History → History → Type 0
  ToldToDelete false h h' = GoesOn h h'
  ToldToDelete true h h' =
      (before : History) × GoesOn h before × GoesOn (delete_command vm ∷ before) h'

  -- What a clean-up from the first history, at the stage, leaves in the second one.
  pub record IsCleanedUp (w : Stage) (h h' : History) : Type 0 where
    pub killed : Killed w.running h h'
    pub torn_down : ToldToDelete w.created h h'
    pub state_removed : (before : History) × (h' ≡ remove_file state_file ∷ before)

  told_later :
      (created : Bool) {h1 h2 h3 h4 : History}
      → GoesOn h1 h2
      → ToldToDelete created h2 h3
      → GoesOn h3 h4
      → ToldToDelete created h1 h4
  told_later false a t b = Extends-trans (Extends-trans a t) b
  told_later true a (before, t, t') b = (before, Extends-trans a t, Extends-trans t' b)

module _ {F : Type 0} (fl : Floats F) (sys : System) (client : Client) (remote : IsRemote client)
    (cfg : Config F) (pool : Pool) (pool_name : Text) (slot : ℕ) (vm state_file : Text) where
  purge_part :
      (created : Bool) (h : History)
      → let h' = (purge_created fl sys client cfg pool pool_name slot vm state_file created h).1 in
        GoesOn vm state_file h h' × ToldToDelete vm state_file created h h'
  unfolding purge_created
  purge_part false h = (unchanged, unchanged)
  purge_part true h =
      let (before, first, rest) = purge-asks sys vm h in
      let first' = Extends-mono {Q = Cleans vm state_file} (λ r t. tears_down t) first in
      let rest' = Extends-mono {Q = Cleans vm state_file} (λ r t. tears_down t) rest in
      (Extends-trans (asked first' _ (tears_down TearsDown.deletes)) rest', (before, first', rest'))

  purge_total :
      (created : Bool) (h : History)
      → (purge_created fl sys client cfg pool pool_name slot vm state_file created h).0 ≡ ok tt
  unfolding purge_created
  purge_total false h = refl
  purge_total true h = refl

  kill_total :
      (running : Bool) (h : History)
      → (kill_running fl sys client cfg pool pool_name slot vm state_file running h).0 ≡ ok tt
  unfolding kill_running
  kill_total false h = refl
  kill_total true h = refl

  kill_part :
      (running : Bool) (h h' : History)
      → GoesOn vm state_file
          (kill_running fl sys client cfg pool pool_name slot vm state_file running h).1
          h'
      → Killed vm state_file running h h' × GoesOn vm state_file h h'
  unfolding kill_running
  kill_part false h h' e = (e, e)
  kill_part true h h' e = (e, Extends-trans (asked unchanged kill_child kills) e)

  cleanup-steps :
      (w : Stage) (h : History)
      → let h1 = (kill_running fl sys client cfg pool pool_name slot vm state_file w.running h).1 in
        let h2 = (deregister sys client vm h1).1 in
        let h3 =
          (purge_created fl sys client cfg pool pool_name slot vm state_file w.created h2).1 in
        (cleanup fl sys client cfg pool pool_name slot vm state_file w h).1
        ≡ remove_file state_file ∷ h3
  unfolding cleanup change
  cleanup-steps w h =
      let h1 = (kill_running fl sys client cfg pool pool_name slot vm state_file w.running h).1 in
      let h2 = (deregister sys client vm h1).1 in
      ap (λ x. x.1)
        (proceed-ok (kill_running fl sys client cfg pool pool_name slot vm state_file w.running h) _
            tt (kill_total w.running h)
          ∙ (proceed-ok (deregister sys client vm h1) _ tt
                (deregister_total sys client remote vm h1)
              ∙ proceed-ok
                  (purge_created fl sys client cfg pool pool_name slot vm state_file w.created h2) _
                  tt (purge_total w.created h2)))

  cleanup-IsCleanedUp :
      (w : Stage) (h : History)
      → IsCleanedUp vm state_file w h
          (cleanup fl sys client cfg pool pool_name slot vm state_file w h).1
  cleanup-IsCleanedUp w h =
      let h1 = (kill_running fl sys client cfg pool pool_name slot vm state_file w.running h).1 in
      let h2 = (deregister sys client vm h1).1 in
      let h3 = (purge_created fl sys client cfg pool pool_name slot vm state_file w.created h2).1 in
      let h4 = remove_file state_file ∷ h3 in
      let gone : GoesOn vm state_file h1 h2 =
        Extends-mono {Q = Cleans vm state_file} (λ r t. remotely t)
          (deregister-Remote sys client remote vm h1) in
      let (purged, told) = purge_part w.created h2 in
      let last : GoesOn vm state_file h3 h4 = asked unchanged (remove_file state_file) removes in
      let (dead, start) = kill_part w.running h h2 gone in
      subst (IsCleanedUp vm state_file w h) (sym (cleanup-steps w h)) (record {
        killed = (kill_part w.running h h4 (Extends-trans gone (Extends-trans purged last))).0;
        torn_down = told_later vm state_file w.created start told last;
        state_removed = (h3, refl);
      })

  -- However a worker's lifecycle ends, at whatever of its calls, its result is that of the
  -- lifecycle, and the clean-up follows it. Where the clone had succeeded, whatever failed after it,
  -- the machine is told to be deleted, and where it had not, the machine counts as not created; where
  -- the spawn had succeeded the child is killed first. The removal of the state file is the last
  -- request. The clean-up calls the server, and tears down no machine but the worker's own; for a
  -- client that touches nothing on the host.
  pub work-IsCleanedUp :
      (rounds : ℕ) (dir : Option Text) (lock : Text) (h : History)
      → let x =
          lifecycle fl sys client cfg pool pool_name slot vm state_file rounds dir lock
            (before_clone, h) in
        let y = work fl sys client cfg pool pool_name slot vm state_file rounds dir lock h in
        (y.0 ≡ x.0)
        × Tracks fl sys client cfg pool pool_name slot vm state_file rounds dir lock h x.1.0
        × IsCleanedUp vm state_file x.1.0 x.1.1 y.1
  unfolding work
  work-IsCleanedUp rounds dir lock h =
      let x =
        lifecycle fl sys client cfg pool pool_name slot vm state_file rounds dir lock
          (before_clone, h) in
      (
        refl,
        lifecycle-Tracks fl sys client cfg pool pool_name slot vm state_file rounds dir lock h,
        cleanup-IsCleanedUp x.1.0 x.1.1,
      )
