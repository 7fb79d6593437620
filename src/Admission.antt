-- ===== src/Admission.antt =====
-- src/admission.rs: the decision whether the host can take another machine, and the lock that a
-- launch holds while it waits for that.
pub mod Acquire
pub mod Decision
pub mod LockWait
use vmfleet.Prelude.{
  ◌%◌, ℕ, zero, suc, ◌+◌, ◌*◌, ◌-◌, max, List, [], ◌∷◌, Bool, true, false, Option, some, none, ok,
  err, Result, if◌then◌else◌, ltb,
}
use vmfleet.Prelude.Text.{Text}
use vmfleet.Prelude.Decimal.{u64_mod}
use vmfleet.Prelude.Act.{◌>>=◌, ◌>>◌, pure, fail, proceed}
use vmfleet.World.{
  System, Io, change, make_dir, open_file, History, Failure, lock_timeout, lock_broken, unfinished,
  try_lock, unlock, now, pause, LockReply, locked, would_block, lock_error,
}
use vmfleet.Config.{Admission}
use vmfleet.Resources.{Floats, mem_available_mib, mem_psi_some_avg10, disk_free_gib}

pub data Block (F : Type 0) : Type 0 where
  low_mem : ℕ → Block F
  high_psi : F → Block F
  low_disk : ℕ → Block F

-- `unwrap_or(u64::MAX)`
abbrev pub or_max : Option ℕ → ℕ
or_max none = u64_mod - 1
or_max (some gib) = gib

abbrev pub nanos : ℕ → ℕ
nanos s = s * 1000000000

module _ {F : Type 0} (fl : Floats F) where
  unfoldable pub decide : ℕ → F → ℕ → Admission F → Option (Block F)
  decide avail_mib psi disk_gib cfg =
      if ltb avail_mib cfg.min_avail_mib
      then some (low_mem avail_mib)
      else if fl.ge psi cfg.psi_max
      then some (high_psi psi)
      else if ltb disk_gib cfg.min_disk_gib
      then some (low_disk disk_gib)
      else none

  module _ (sys : System) (cfg : Admission F) (vault : Text) where
    unfoldable pub blocked : Io (Option (Block F))
    blocked = do
      avail ← mem_available_mib sys
      psi ← mem_psi_some_avg10 fl sys
      disk ← disk_free_gib sys vault
      pure (decide avail psi (or_max disk) cfg)

    -- A round of the loop for the lock, with the rounds that are left.
    lock_round : Io (Unit {0}) → Text → ℕ → LockReply → Io (Unit {0})
    lock_round again path deadline locked = pure tt
    lock_round again path deadline would_block = do
      t ← now sys
      if ltb deadline t then fail lock_timeout else (pause sys 2 >> again)
    lock_round again path deadline lock_error = fail lock_broken

    unfoldable pub lock_loop : ℕ → Text → ℕ → Io (Unit {0})
    unfolding lock_round
    lock_loop zero path deadline h = (err unfinished, h)
    lock_loop (suc rounds) path deadline h =
        let h' = try_lock path ∷ h in
        lock_round (lock_loop rounds path deadline) path deadline (sys.on_lock h') h'

    wait_round : Io (Unit {0}) → Option (Block F) → Io (Unit {0})
    wait_round again none = pure tt
    wait_round again (some b) = pause sys (max cfg.poll_seconds 1) >> again

    -- `while let Some(b) = self.blocked()`. Where the rounds run out, the lock is still held.
    unfoldable pub wait_clear : ℕ → Io (Unit {0})
    unfolding wait_round
    wait_clear zero h = (err unfinished, h)
    wait_clear (suc rounds) h = proceed (blocked h) (wait_round (wait_clear rounds))

    make_parent : Option Text → Io Bool
    make_parent none = pure true
    make_parent (some dir) = change sys (make_dir dir)

    open_lock : Bool → Text → Io Bool
    open_lock false path = pure false
    open_lock true path = change sys (open_file path)

    lock_and_wait : ℕ → Text → Bool → Io (Unit {0})
    unfolding lock_loop wait_clear
    lock_and_wait rounds path false = fail lock_broken
    lock_and_wait rounds path true = do
      t ← now sys
      lock_loop rounds path (t + nanos (max cfg.lock_wait_seconds 1 * 20 % u64_mod))
      wait_clear rounds

    -- `acquire`, with the directory of the lock's file if it has one: the file is opened, then the
    -- lock is taken, then comes the wait under the lock.
    unfoldable pub acquire : ℕ → Option Text → Text → Io (Unit {0})
    unfolding make_parent open_lock lock_and_wait
    acquire rounds dir path = do
      made ← make_parent dir
      opened ← open_lock made path
      lock_and_wait rounds path opened

    unfoldable pub settle : Io (Unit {0})
    settle = pause sys cfg.settle_seconds

-- `drop(guard)`
unfoldable pub release : Text → Io (Unit {0})
release path h = (ok tt, unlock path ∷ h)
