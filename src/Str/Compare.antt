-- ===== src/Str/Compare.antt =====
-- The string comparisons decide equality of strings and of prefixes.
use holyos.Base.{
  ℕ, zero, suc, ◌<◌, ◌≡◌, ◌↔◌, refl, ap, ap₂, List, [], ◌∷◌, ◌++◌, done, sub32, arith, length, take,
}
use native.Mathlib.Decide.{ℕ_discrete}
use holyos.Str.{strlen, strcmp, strncmp, strncmp_loop}

-- The characters of a string: bytes that are not NUL.
abbrev pub IsText : List ℕ → Type 0
IsText [] = Unit {0}
IsText (c ∷ cs) = (0 < c) × (c < 256) × IsText cs

-- A string in memory: its characters, the NUL, and what lies behind.
abbrev pub stored : List ℕ → List ℕ → List ℕ
stored cs rest = cs ++ 0 ∷ rest

pub strlen_lem : (cs rest : List ℕ) → IsText cs → strlen (stored cs rest) ≡ done (length cs)
unfolding strlen
strlen_lem [] rest t = refl
strlen_lem (c ∷ cs) rest t = ground (arith, strlen_lem cs rest t.2)

pub cons-injective : {c d : ℕ} {cs ds : List ℕ} → c ∷ cs ≡ d ∷ ds → (c ≡ d) × (cs ≡ ds)
cons-injective h = (cc, cc)

-- `strcmp` of two strings returns, and returns 0 exactly when their characters are the same.
pub strcmp_lem :
    (cs ds rest rest' : List ℕ)
    → IsText cs
    → IsText ds
    → (result : ℕ) × (strcmp (stored cs rest) (stored ds rest') ≡ done result)
      × ((result ≡ 0) ↔ (cs ≡ ds))
unfolding strcmp
strcmp_lem [] [] rest rest' t u = (0, ground arith, ((λ e. refl), λ e. refl))
strcmp_lem [] (d ∷ ds) rest rest' t u =
    (sub32 0 d, ground arith, ((λ e. absurd (omega arith)), λ e. absurd (cc)))
strcmp_lem (c ∷ cs) [] rest rest' t u =
    (sub32 c 0, ground arith, ((λ e. absurd (omega arith)), λ e. absurd (cc)))
strcmp_lem (c ∷ cs) (d ∷ ds) rest rest' t u = elim (ℕ_discrete c d) [
  | yes e ↦
      let (result, returned, same) = strcmp_lem cs ds rest rest' t.2 u.2 in
      (
        result,
        ground (arith, returned),
        ((λ z. ap₂ (λ x xs. x ∷ xs) e (same.0 z)), λ h. same.1 (cons-injective h).1),
      )
  | no ne ↦ (
    sub32 c d,
    ground arith,
    ((λ z. absurd (ne (omega arith))), λ h. absurd (ne (cons-injective h).0)),
  )
]

strncmp_loop_lem :
    (n : ℕ) (cs ds rest rest' : List ℕ)
    → 0 < n
    → IsText cs
    → IsText ds
    → (result : ℕ) × (strncmp_loop n (stored cs rest) (stored ds rest') ≡ done result)
      × ((result ≡ 0) ↔ (take n cs ≡ take n ds))
unfolding strncmp_loop
strncmp_loop_lem zero cs ds rest rest' h t u = absurd (omega arith)
strncmp_loop_lem (suc n) [] [] rest rest' h t u = (0, ground arith, ((λ e. refl), λ e. refl))
strncmp_loop_lem (suc n) [] (d ∷ ds) rest rest' h t u =
    (sub32 0 d, ground arith, ((λ e. absurd (omega arith)), λ e. absurd (cc)))
strncmp_loop_lem (suc n) (c ∷ cs) [] rest rest' h t u =
    (sub32 c 0, ground arith, ((λ e. absurd (omega arith)), λ e. absurd (cc)))
strncmp_loop_lem (suc zero) (c ∷ cs) (d ∷ ds) rest rest' h t u = (
  sub32 c d,
  ground arith,
  ((λ z. ap (λ x. x ∷ []) (omega arith)), λ e. omega (arith, (cons-injective e).0)),
)
strncmp_loop_lem (suc (suc n)) (c ∷ cs) (d ∷ ds) rest rest' h t u = elim (ℕ_discrete c d) [
  | yes e ↦
      let (result, returned, same) =
        strncmp_loop_lem (suc n) cs ds rest rest' (omega arith) t.2 u.2 in
      (
        result,
        ground (arith, returned),
        ((λ z. ap₂ (λ x xs. x ∷ xs) e (same.0 z)), λ h. same.1 (cons-injective h).1),
      )
  | no ne ↦ (
    sub32 c d,
    ground arith,
    ((λ z. absurd (ne (omega arith))), λ h. absurd (ne (cons-injective h).0)),
  )
]

-- `strncmp` of two strings returns, and returns 0 exactly when their first `n` characters are the same.
pub strncmp_lem :
    (n : ℕ) (cs ds rest rest' : List ℕ)
    → IsText cs
    → IsText ds
    → (result : ℕ) × (strncmp (stored cs rest) (stored ds rest') n ≡ done result)
      × ((result ≡ 0) ↔ (take n cs ≡ take n ds))
unfolding strncmp
strncmp_lem zero cs ds rest rest' t u = (0, refl, ((λ e. refl), λ e. refl))
strncmp_lem (suc n) cs ds rest rest' t u =
    let (result, returned, same) = strncmp_loop_lem (suc n) cs ds rest rest' (omega arith) t u in
    (result, ground (arith, returned), same)
