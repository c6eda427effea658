-- ===== src/Cpu/Spinlock.antt =====
-- kernel/cpu/spinlock.c and `atomic_exchange` of include/kernel/cpu/cpu.h. A lock is its word:
-- 0 is free. `Interleave` runs many processors against one lock.
pub mod Interleave
pub mod Alone
use holyos.Base.{ℕ, zero, suc, Bool, Run, done, spins, fault, ◌>>=◌, ◌==◌, ◌!=◌, if◌then◌else◌}

-- `lock xchg`: the old word, and the word afterwards.
pub atomic_exchange : ℕ → ℕ → ℕ × ℕ
atomic_exchange word val = (word, val)

unfoldable pub spinlock_init : ℕ → ℕ
spinlock_init lock = 0

-- `while (lock->lock) cpu_pause();` when nobody else writes the word, for `fuel` rounds.
pause_loop : ℕ → ℕ → Run ℕ
pause_loop zero lock = spins
pause_loop (suc fuel) lock =
    let rest = pause_loop fuel lock in if lock != 0 then rest else done lock

-- `spinlock_lock` when nobody else writes the word, for `fuel` rounds of each loop.
pub lock_loop : ℕ → ℕ → Run ℕ
unfolding atomic_exchange pause_loop
lock_loop zero lock = spins
lock_loop (suc fuel) lock =
    let (old, lock') = atomic_exchange lock 1 in
    let again = pause_loop fuel lock' >>= λ word. lock_loop fuel word in
    if old != 0 then again else done lock'

-- What `spinlock_lock` comes to on one processor: a held lock is never released while it is waited
-- for.
unfoldable pub spinlock_lock : ℕ → Run ℕ
spinlock_lock lock = if lock == 0 then done 1 else spins

unfoldable pub spinlock_trylock : ℕ → Bool × ℕ
unfolding atomic_exchange
spinlock_trylock lock = let (old, lock') = atomic_exchange lock 1 in (old == 0, lock')

unfoldable pub spinlock_unlock : ℕ → ℕ
unfolding atomic_exchange
spinlock_unlock lock = (atomic_exchange lock 0).1
