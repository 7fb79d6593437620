-- ===== src/Supervisor/Observe/Free.antt =====
-- The free slots of a pool, as src/supervisor.rs computes them.
use vmfleet.Prelude.{
  ℕ, List, true, false, not, ◌≡◌, arith, leb, filter, contains, contains-filter, All, All-contains,
  All-mono,
}
use vmfleet.Prelude.Sort.{All-sort}
use vmfleet.Config.{Pool, slots}
use vmfleet.Supervisor.Observe.{active, free_slots}

-- A slot of the pool without an active unit.
abbrev pub IsFree : Pool → List ℕ → ℕ → Type 0
IsFree pool active_slots s = (contains s (slots pool) ≡ true) × (contains s active_slots ≡ false)

IsFree-of :
    (pool : Pool) (active_slots : List ℕ) (s : ℕ)
    → contains s (filter (λ t. not (contains t (active pool active_slots))) (slots pool)) ≡ true
    → IsFree pool active_slots s
unfolding active
IsFree-of pool active_slots s h = ground (
  arith,
  contains-filter (λ t. not (contains t (active pool active_slots))) s (slots pool),
  contains-filter (λ t. contains t active_slots) s (slots pool),
)

pub free_slots-IsFree :
    (pool : Pool) (active_slots : List ℕ)
    → All (IsFree pool active_slots) (free_slots pool active_slots)
unfolding free_slots
free_slots-IsFree pool active_slots =
    All-sort leb (IsFree pool active_slots) _
      (All-mono _ (IsFree pool active_slots) _ (IsFree-of pool active_slots) (All-contains _))
