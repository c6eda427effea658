-- ===== src/Cpu/Spinlock/Interleave.antt =====
-- Processors that run `spinlock_lock`, a critical section and `spinlock_unlock` over and over, one
-- atomic access at a time, in any order.
use holyos.Base.{
  ℕ, zero, suc, ◌+◌, ◌-◌, ◌≡◌, ◌≤◌, refl, List, [], ◌∷◌, some, arith, get_elem?, set, replicate,
  ◌!=◌, if◌then◌else◌,
}
use holyos.Cpu.Spinlock.{atomic_exchange}

-- Where a processor is: outside, before the exchange, in the inner loop, or past the lock.
pub data Place : Type 0 where
  outside exchanging pausing critical : Place

pub record System : Type 0 where
  pub word : ℕ
  pub cpus : List Place

-- The next atomic access of a processor at a place: its next place, and the word afterwards.
unfoldable pub advance : Place → ℕ → Place × ℕ
unfolding atomic_exchange
advance outside word = (exchanging, word)
advance exchanging word =
    let (old, word') = atomic_exchange word 1 in (if old != 0 then pausing else critical, word')
advance pausing word = (if word != 0 then pausing else exchanging, word)
advance critical word = (outside, (atomic_exchange word 0).1)

pub data Step : System → System → Type 0 where
  move :
      {s : System} (i : ℕ) {p : Place}
      → get_elem? s.cpus i ≡ some p
      → Step s (record { word = (advance p s.word).1; cpus = set s.cpus i (advance p s.word).0 })

pub data Reach (s : System) : System → Type 0 where
  here : Reach s s
  next : {t u : System} → Reach s t → Step t u → Reach s u

abbrev pub holds : Place → ℕ
holds critical = 1
holds _ = 0

abbrev pub holders : List Place → ℕ
holders [] = 0
holders (p ∷ ps) = holds p + holders ps

abbrev pub start : ℕ → System
start n = record { word = 0; cpus = replicate n outside }

holders-set :
    (ps : List Place) (i : ℕ) (p q : Place)
    → get_elem? ps i ≡ some p
    → holders (set ps i q) + holds p ≡ holders ps + holds q
holders-set [] i p q h = absurd (ground arith)
holders-set (x ∷ ps) zero p q h = ground arith
holders-set (x ∷ ps) (suc i) p q h = omega (arith, holders-set ps i p q h)

holders-replicate : (n : ℕ) → holders (replicate n outside) ≡ 0
holders-replicate zero = refl
holders-replicate (suc n) = omega (arith, holders-replicate n)

-- The word is 1 while one processor is past the lock, and 0 while none is.
abbrev pub Inv : System → Type 0
Inv s = (s.word ≡ holders s.cpus) × (s.word ≤ 1)

advance_lem :
    (p : Place) (word others : ℕ)
    → word ≡ others + holds p
    → word ≤ 1
    → ((advance p word).1 ≡ others + holds (advance p word).0) × ((advance p word).1 ≤ 1)
unfolding advance
advance_lem outside word others e h = omega arith
advance_lem exchanging word others e h = ground arith
advance_lem pausing word others e h = ground arith
advance_lem critical word others e h = omega arith

holds-le-holders :
    (ps : List Place) (i : ℕ) {p : Place} → get_elem? ps i ≡ some p → holds p ≤ holders ps
holds-le-holders [] i h = absurd (ground arith)
holds-le-holders (x ∷ ps) zero h = ground arith
holds-le-holders (x ∷ ps) (suc i) h = omega (arith, holds-le-holders ps i h)

Step-Inv : {s t : System} → Step s t → Inv s → Inv t
Step-Inv (move {s} i {p} h) v =
    let others = holders s.cpus - holds p in
    omega (
      arith,
      holds-le-holders s.cpus i h,
      holders-set s.cpus i p (advance p s.word).0 h,
      advance_lem p s.word others (omega (arith, holds-le-holders s.cpus i h)) v.1,
    )

Reach-Inv : {s t : System} → Reach s t → Inv s → Inv t
Reach-Inv here v = v
Reach-Inv (next r st) v = Step-Inv st (Reach-Inv r v)

-- However the atomic accesses of `n` processors interleave, at most one of them is past
-- `spinlock_lock`, and the word is then 1; while none is, the word is 0.
pub mutual_exclusion :
    (n : ℕ) {s : System} → Reach (start n) s → (holders s.cpus ≤ 1) × (s.word ≡ holders s.cpus)
mutual_exclusion n r = omega (arith, Reach-Inv r (omega (arith, holders-replicate n)))
