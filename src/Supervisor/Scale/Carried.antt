-- ===== src/Supervisor/Scale/Carried.antt =====
-- That a cycle of src/supervisor.rs does what its reports say, and nothing else.
use vmfleet.Prelude.{ℕ, AllZip, List, [], ◌∷◌, Bool}
use vmfleet.Prelude.Text.{Text}
use vmfleet.World.{System, History, Extends}
use vmfleet.Config.{Pool, Supervisor}
use vmfleet.Github.{Runner}
use vmfleet.Supervisor.Scale.{Budget, IdleSince, PoolReport}
use vmfleet.Supervisor.Scale.Outcome.{IsFaithful, IsPaid, all_launches}
use vmfleet.Supervisor.Scale.Enacted.{Enacts, Acts}

module _ (sys : System) (sup : Supervisor) (cfg_path exe : Text) where
  -- Each report's actions were carried out, one pool after the other.
  abbrev pub EnactsAll : Bool → List Pool → List PoolReport → History → History → Type 0
  EnactsAll dry [] [] h h' = Extends (λ _. Unit {0}) h h'
  EnactsAll dry [] (r ∷ rs) h h' = ⊥
  EnactsAll dry (p ∷ ps) [] h h' = ⊥
  EnactsAll dry (p ∷ ps) (r ∷ rs) h h' =
      (between : History) × Enacts sys sup cfg_path exe dry p r.actions h between
      × EnactsAll dry ps rs between h'

  module _ (runners : List Runner) (active_slots : List ℕ) (idle_since : IdleSince)
      (blocked dry : Bool) (all_pools : List Pool) where
    abbrev Does : History → History → Type 0
    Does h h' =
        Extends (Acts sys sup cfg_path exe runners active_slots idle_since blocked all_pools dry) h
          h'

  -- What a call of the loop from a history returns and leaves.
  pub record IsCarriedOut (dry blocked : Bool) (runners : List Runner) (active_slots : List ℕ)
      (queued : List (Text × ℕ)) (idle_since : IdleSince) (pools : List Pool) (b : Budget)
      (h : History) (reports : List PoolReport) (b' : Budget) (h' : History) : Type 0 where
    pub faithful :
        AllZip
          (IsFaithful sys sup cfg_path exe dry runners active_slots idle_since blocked queued)
          pools
          reports
    pub paid :
        IsPaid sys sup cfg_path exe dry runners active_slots idle_since b
          (all_launches sys sup cfg_path exe dry runners active_slots idle_since reports)
          b'
    pub enacted : EnactsAll dry pools reports h h'
    pub confined :
        Extends (Acts sys sup cfg_path exe runners active_slots idle_since blocked pools dry) h h'
