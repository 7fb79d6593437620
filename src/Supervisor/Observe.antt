-- ===== src/Supervisor/Observe.antt =====
-- What a cycle of src/supervisor.rs computes of a pool from the runners, the active units and the
-- queued jobs.
pub mod Free
use vmfleet.Prelude.{
  ℕ, zero, suc, ◌+◌, ◌-◌, ◌%◌, max, List, [], ◌∷◌, Bool, true, false, not, ◌&&◌, Option, none, some,
  if◌then◌else◌, leb, filter, filter_map, any, contains, length, ltb,
}
use vmfleet.Prelude.Text.{Text, text_eq}
use vmfleet.Prelude.Sort.{sort}
use vmfleet.Prelude.Decimal.{u32_mod}
use vmfleet.Naming.{slot_of_vm}
use vmfleet.Config.{Pool, slots}
use vmfleet.Github.{Runner, has_label, online}
use vmfleet.Supervisor.Demand.{desired}

-- `as u32`, and the sum of two u32 in a release build
abbrev pub as_u32 : ℕ → ℕ
as_u32 n = n % u32_mod

-- `i64`, for the difference of two u32: `negsuc n` is -(n + 1).
pub data ℤ : Type 0 where
  pos : ℕ → ℤ
  negsuc : ℕ → ℤ

abbrev pub sub_ℕ : ℕ → ℕ → ℤ
sub_ℕ a b = if leb b a then pos (a - b) else negsuc (b - a - 1)

abbrev pub serves : Pool → Runner → Bool
serves pool r = any (λ l. has_label l r) pool.labels

abbrev pub is_idle : Runner → Bool
is_idle r = online r && not r.busy

abbrev pub is_busy : Runner → Bool
is_busy r = online r && r.busy

unfoldable pub mine : Pool → List Runner → List Runner
mine pool runners = filter (serves pool) runners

unfoldable pub idle : Pool → List Runner → List Runner
unfolding mine
idle pool runners = filter is_idle (mine pool runners)

unfoldable pub busy_count : Pool → List Runner → ℕ
unfolding mine
busy_count pool runners = as_u32 (length (filter is_busy (mine pool runners)))

-- The pool's slots whose unit is active (`active_slots.intersection(&pool_slots)`).
unfoldable pub active : Pool → List ℕ → List ℕ
active pool active_slots = filter (λ s. contains s active_slots) (slots pool)

unfoldable pub online_slots : Pool → List Runner → List ℕ
unfolding mine
online_slots pool runners =
    filter_map (λ r. slot_of_vm pool.name r.name) (filter online (mine pool runners))

unfoldable pub pending : Pool → List Runner → List ℕ → ℕ
unfolding active online_slots
pending pool runners active_slots =
    as_u32 (
      length
        (filter (λ s. not (contains s (online_slots pool runners))) (active pool active_slots)))

unfoldable pub present : Pool → List Runner → List ℕ → ℕ
unfolding idle busy_count pending
present pool runners active_slots = as_u32 (
    as_u32 (as_u32 (length (idle pool runners)) + busy_count pool runners)
    + pending pool runners active_slots)

-- A map from labels to numbers, 0 where a label is missing.
unfoldable pub queued_for : Text → List (Text × ℕ) → ℕ
queued_for l [] = 0
queued_for l ((k, n) ∷ more) = let rest = queued_for l more in if text_eq k l then n else rest

-- The largest number queued for one of the labels, 0 without labels.
unfoldable pub queued_max : List Text → List (Text × ℕ) → ℕ
unfolding queued_for
queued_max [] queued = 0
queued_max (l ∷ ls) queued = max (queued_for l queued) (queued_max ls queued)

unfoldable pub wanted : Pool → List Runner → List (Text × ℕ) → ℕ
unfolding busy_count queued_max
wanted pool runners queued =
    desired (busy_count pool runners) (queued_max pool.labels queued) pool.min_warm pool.cap

-- The pool's slots whose unit is not active, in ascending order.
unfoldable pub free_slots : Pool → List ℕ → List ℕ
unfolding active
free_slots pool active_slots =
    sort leb (filter (λ s. not (contains s (active pool active_slots))) (slots pool))

-- The idle runners of the pool that belong to an active slot of it, with their slots.
slot_if_active : Pool → List ℕ → Runner → Option ℕ → Option (Runner × ℕ)
slot_if_active pool active_slots r none = none
slot_if_active pool active_slots r (some s) =
    if contains s (active pool active_slots) then some (r, s) else none

unfoldable pub candidates : Pool → List Runner → List ℕ → List (Runner × ℕ)
unfolding idle active slot_if_active
candidates pool runners active_slots =
    filter_map (λ r. slot_if_active pool active_slots r (slot_of_vm pool.name r.name))
      (idle pool runners)
