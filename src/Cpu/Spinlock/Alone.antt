-- ===== src/Cpu/Spinlock/Alone.antt =====
-- A lock on one processor: the loop of `spinlock_lock` against its outcome.
use holyos.Base.{ℕ, zero, suc, ◌≡◌, refl, done, spins, arith, false, true}
use holyos.Cpu.Spinlock.{
  atomic_exchange, pause_loop, lock_loop, spinlock_lock, spinlock_trylock, spinlock_unlock,
}

pause_loop-spins : (fuel : ℕ) → pause_loop fuel 1 ≡ spins
unfolding pause_loop
pause_loop-spins zero = refl
pause_loop-spins (suc fuel) = pause_loop-spins fuel

-- With nobody else at the lock, `spinlock_lock` takes a free lock in its first round, and for every
-- number of rounds it is still spinning on a held one.
pub lock_loop-eq : (fuel lock : ℕ) → lock_loop (suc fuel) lock ≡ spinlock_lock lock
unfolding lock_loop spinlock_lock atomic_exchange
lock_loop-eq fuel lock = ground (arith, pause_loop-spins fuel)

-- After an unlock the lock can be taken, and one that was taken by `spinlock_lock` or by
-- `spinlock_trylock` is refused to both until then.
pub lock-exclusive :
    (lock : ℕ) {held : ℕ}
    → spinlock_lock lock ≡ done held
    → (spinlock_trylock lock ≡ (true, held))
      × (spinlock_lock held ≡ spins)
      × (spinlock_trylock held ≡ (false, held))
      × (spinlock_lock (spinlock_unlock held) ≡ done held)
unfolding spinlock_lock spinlock_trylock spinlock_unlock atomic_exchange
lock-exclusive lock e = ground arith
