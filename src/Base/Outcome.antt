-- ===== src/Base/Outcome.antt =====
-- The outcome of a piece of kernel code.

-- `done` is a return, `spins` a busy-wait that nothing ends, `fault` an access outside an object or
-- through a pointer to none.
pub data Run {ℓ} (A : Type ℓ) : Type ℓ where
  done : A → Run A
  spins fault : Run A

infixl 5 ◌>>=◌ ◌>>◌
abbrev pub ◌>>=◌ {ℓ κ} : {A : Type ℓ} {B : Type κ} → Run A → (A → Run B) → Run B
done a >>= f = f a
spins >>= f = spins
fault >>= f = fault

abbrev pub ◌>>◌ {ℓ κ} : {A : Type ℓ} {B : Type κ} → Run A → Run B → Run B
m >> n = m >>= λ _. n
