-- ===== src/Mm/Pmm/Owners.antt =====
-- A client of the allocator: the pages that it holds. It frees only what it holds.
use holyos.Base.{
  ℕ, zero, suc, ◌*◌, ◌/◌, ◌%◌, ◌<◌, ◌≡◌, ◌≢◌, ◌∙◌, ap, sym, subst, List, [], ◌∷◌, done, some, arith,
  get_elem?,
}
use holyos.Mm.Pmm.{Pmm, pmm_block_size, pmm_alloc_page, pmm_free_page}
use holyos.Mm.Pmm.Frames.{used}
use holyos.Mm.Pmm.Valid.{IsValid}
use holyos.Mm.Pmm.Alloc.{
  taken, alloc-taken, used-taken_self, used-taken_ne, max_blocks-taken, taken-IsValid,
}
use holyos.Mm.Pmm.Free.{
  free_outcome, free_lem, free_outcome-IsValid, free_outcome-others, max_blocks-free_outcome,
}

-- The list without its element at an index.
abbrev pub remove : List ℕ → ℕ → List ℕ
remove [] i = []
remove (x ∷ xs) zero = xs
remove (x ∷ xs) (suc i) = x ∷ remove xs i

pub record Client : Type 0 where
  pub pmm : Pmm
  pub held : List ℕ

pub data Step : Client → Client → Type 0 where
  alloc :
      {c : Client} {page : ℕ} {s : Pmm}
      → pmm_alloc_page c.pmm ≡ done (page, s)
      → page ≢ 0
      → Step c (record { pmm = s; held = page ∷ c.held })
  free :
      {c : Client} (i : ℕ) {page : ℕ} {s : Pmm}
      → get_elem? c.held i ≡ some page
      → pmm_free_page page c.pmm ≡ done s
      → Step c (record { pmm = s; held = remove c.held i })

pub data Reach (c : Client) : Client → Type 0 where
  here : Reach c c
  next : {d e : Client} → Reach c d → Step d e → Reach c e

abbrev pub Absent : ℕ → List ℕ → Type 0
Absent page [] = Unit {0}
Absent page (x ∷ xs) = (page ≢ x) × Absent page xs

-- No page is held twice.
abbrev pub AllDifferent : List ℕ → Type 0
AllDifferent [] = Unit {0}
AllDifferent (x ∷ xs) = Absent x xs × AllDifferent xs

-- Every page is the address of a frame that is used.
abbrev pub AllUsed : Pmm → List ℕ → Type 0
AllUsed s [] = Unit {0}
AllUsed s (x ∷ xs) =
    (x % pmm_block_size ≡ 0)
    × (x / pmm_block_size < s.max_blocks)
    × (used s.bitmap (x / pmm_block_size) ≡ 1)
    × AllUsed s xs

pub record Owns (c : Client) : Type 0 where
  pub valid : IsValid c.pmm
  pub different : AllDifferent c.held
  pub all_used : AllUsed c.pmm c.held

Absent-of_free :
    (s : Pmm) (block : ℕ) (held : List ℕ)
    → used s.bitmap block ≡ 0
    → AllUsed s held
    → Absent (block * pmm_block_size) held
Absent-of_free s block [] clear h = tt
Absent-of_free s block (x ∷ xs) clear h = (
  λ e. omega (
    arith,
    h.2,
    ap (λ (b : ℕ). used s.bitmap b) {x = x / pmm_block_size} {y = block} (omega arith),
  ),
  Absent-of_free s block xs clear h.3,
)

AllUsed-taken :
    {s : Pmm} (block : ℕ) (held : List ℕ)
    → IsValid s
    → block < s.max_blocks
    → Absent (block * pmm_block_size) held
    → AllUsed s held
    → AllUsed (taken s block) held
AllUsed-taken block [] v h away all = tt
AllUsed-taken {s} block (x ∷ xs) v h away all = (
  all.0,
  omega (arith, all.1, max_blocks-taken s block),
  used-taken_ne v block (x / pmm_block_size) h (λ e. away.0 (omega (arith, all.0))) ∙ all.2,
  AllUsed-taken block xs v h away.1 all.3,
)

Absent-remove : (page : ℕ) (held : List ℕ) (i : ℕ) → Absent page held → Absent page (remove held i)
Absent-remove page [] i h = tt
Absent-remove page (x ∷ xs) zero h = h.1
Absent-remove page (x ∷ xs) (suc i) h = (h.0, Absent-remove page xs i h.1)

some_eq : {x y : ℕ} → some x ≡ some y → x ≡ y
some_eq h = cc

Absent-get :
    (xs : List ℕ) (i : ℕ) {x page : ℕ} → Absent x xs → get_elem? xs i ≡ some page → x ≢ page
Absent-get [] i h e = absurd (ground arith)
Absent-get (y ∷ xs) zero h e = λ q. h.0 (q ∙ sym (some_eq e))
Absent-get (y ∷ xs) (suc i) h e = Absent-get xs i h.1 e

AllDifferent-remove :
    (held : List ℕ) (i : ℕ) {page : ℕ}
    → get_elem? held i ≡ some page
    → AllDifferent held
    → AllDifferent (remove held i) × Absent page (remove held i)
AllDifferent-remove [] i e h = absurd (ground arith)
AllDifferent-remove (x ∷ xs) zero {page} e h = (h.1, subst (λ y. Absent y xs) (some_eq e) h.0)
AllDifferent-remove (x ∷ xs) (suc i) {page} e h =
    let (different, away) = AllDifferent-remove xs i e h.1 in
    ((Absent-remove x xs i h.0, different), ((λ q. Absent-get xs i h.0 e (sym q)), away))

AllUsed-freed :
    {s : Pmm} (page : ℕ) (held : List ℕ)
    → IsValid s
    → page % pmm_block_size ≡ 0
    → Absent page held
    → AllUsed s held
    → AllUsed (free_outcome s (page / pmm_block_size)) held
AllUsed-freed page [] v aligned away all = tt
AllUsed-freed {s} page (x ∷ xs) v aligned away all = (
  all.0,
  omega (arith, all.1, max_blocks-free_outcome s (page / pmm_block_size)),
  free_outcome-others v (page / pmm_block_size) (x / pmm_block_size)
        (λ e. away.0 (omega (arith, all.0)))
      ∙ all.2,
  AllUsed-freed page xs v aligned away.1 all.3,
)

AllUsed-remove : (s : Pmm) (held : List ℕ) (i : ℕ) → AllUsed s held → AllUsed s (remove held i)
AllUsed-remove s [] i h = tt
AllUsed-remove s (x ∷ xs) zero h = h.3
AllUsed-remove s (x ∷ xs) (suc i) h = (h.0, h.1, h.2, AllUsed-remove s xs i h.3)

AllUsed-aligned :
    (s : Pmm) (held : List ℕ) (i : ℕ) {page : ℕ}
    → get_elem? held i ≡ some page
    → AllUsed s held
    → page % pmm_block_size ≡ 0
AllUsed-aligned s [] i e h = absurd (ground arith)
AllUsed-aligned s (x ∷ xs) zero e h = subst (λ p. p % pmm_block_size ≡ 0) (some_eq e) h.0
AllUsed-aligned s (x ∷ xs) (suc i) e h = AllUsed-aligned s xs i e h.3

done-injective : {s s' : Pmm} → done s ≡ done s' → s ≡ s'
done-injective h = cc

Owns-taken :
    {c : Client} (block : ℕ)
    → Owns c
    → block < c.pmm.max_blocks
    → used c.pmm.bitmap block ≡ 0
    → Owns (record { pmm = taken c.pmm block; held = (block * pmm_block_size) ∷ c.held })
Owns-taken {c} block o h clear =
    let away = Absent-of_free c.pmm block c.held clear o.all_used in
    let at_block : block * pmm_block_size / pmm_block_size ≡ block = omega arith in
    record {
      valid = taken-IsValid block o.valid;
      different = (away, o.different);
      all_used = (
        omega arith,
        omega (arith, max_blocks-taken c.pmm block),
        rw at_block (used-taken_self o.valid block h),
        AllUsed-taken block c.held o.valid h away o.all_used,
      );
    }

Step-Owns : {c d : Client} → Step c d → Owns c → Owns d
Step-Owns (alloc {c} {page} {s} e nonzero) o =
    let (block, at, after, inside, clear) = alloc-taken o.valid e nonzero in
    rw (at, after) (Owns-taken block o inside clear)
Step-Owns (free {c} i {page} {s} e f) o =
    let after = done-injective (sym f ∙ free_lem page o.valid) in
    let (different, away) = AllDifferent-remove c.held i e o.different in
    rw after (record {
      valid = free_outcome-IsValid (page / pmm_block_size) o.valid;
      different = different;
      all_used =
          AllUsed-freed page (remove c.held i) o.valid (AllUsed-aligned c.pmm c.held i e o.all_used)
            away (AllUsed-remove c.pmm c.held i o.all_used);
    })

-- From a valid allocator and a client that holds no page, after any sequence of successful
-- allocations and of frees of held pages, the pages held are pairwise different, each is the
-- page-aligned address of a frame below `max_blocks` that is marked used, and the allocator is valid.
pub exclusive_ownership :
    {s : Pmm} {c : Client} → IsValid s → Reach (record { pmm = s; held = [] }) c → Owns c
exclusive_ownership v here = record { valid = v; different = tt; all_used = tt }
exclusive_ownership v (next r st) = Step-Owns st (exclusive_ownership v r)
