-- ===== src/Cpu/Descriptors/Gates.antt =====
-- The interrupt table leads every exception and every interrupt of the controllers to its stub.
use holyos.Base.{
  ℕ, zero, suc, ◌+◌, ◌-◌, ◌*◌, ◌/◌, ◌^◌, ◌<◌, ◌≤◌, ◌≡◌, ◌⊎◌, inl, inr, refl, sym, ◌∙◌, ap, List, [],
  ◌∷◌, ◌++◌, done, ltb, length, get_or, set, get_or-set_self, get_or-set_ne, length-set, arith,
  Bool-cases,
}
use holyos.Cpu.Descriptors.{IdtEntry, null_gate, gate, idt_set_entry, set_gates, idt_init}
use holyos.Cpu.Descriptors.Segments.{bit_and-mask}

-- The processor's reading of a gate.
abbrev pub gate_offset : IdtEntry → ℕ
gate_offset e = e.base_lo + e.base_hi * 2 ^ 16

gate-reads :
    (base sel : ℕ)
    → base < 2 ^ 32
    → (gate_offset (gate base sel 0x8e) ≡ base)
      × ((gate base sel 0x8e).sel ≡ sel)
      × ((gate base sel 0x8e).flags ≡ 0xee)
unfolding gate
gate-reads base sel word =
    let low = bit_and-mask 16 base in
    let high = bit_and-mask 16 (base / 2 ^ 16) in (omega arith, refl, refl)

written :
    (i base : ℕ) (entries : List IdtEntry)
    → i < length entries
    → idt_set_entry i base 0x08 0x8e entries ≡ done (set entries i (gate base 0x08 0x8e))
unfolding idt_set_entry
written i base entries inside = ground arith

-- The loop over stubs sets the gates of their vectors, and no other.
record Set (stubs : List ℕ) (i : ℕ) (entries : List IdtEntry) : Type 0 where
  after : List IdtEntry
  runs : set_gates stubs i entries ≡ done after
  size : length after ≡ length entries
  sets :
      (k : ℕ)
      → k < length stubs
      → get_or after (i + k) null_gate ≡ gate (get_or stubs k 0) 0x08 0x8e
  keeps :
      (v : ℕ)
      → v < i ⊎ (i + length stubs ≤ v)
      → get_or after v null_gate ≡ get_or entries v null_gate

below_or_behind : (i v size : ℕ) → v < i ⊎ (i + suc size ≤ v) → v < i + 1 ⊎ (i + 1 + size ≤ v)
below_or_behind i v size (inl h) = inl (omega arith)
below_or_behind i v size (inr h) = inr (omega arith)

sets_first :
    (stub : ℕ) (stubs : List ℕ) (i : ℕ) (entries : List IdtEntry)
    → i < length entries
    → (rest : Set stubs (i + 1) (set entries i (gate stub 0x08 0x8e))) → (k : ℕ)
    → k < length (stub ∷ stubs)
    → get_or rest.after (i + k) null_gate ≡ gate (get_or (stub ∷ stubs) k 0) 0x08 0x8e
sets_first stub stubs i entries inside rest zero h =
    ap (λ v. get_or rest.after v null_gate) {x = i + 0} {y = i} (omega arith)
    ∙ rest.keeps i (inl (omega arith))
    ∙ get_or-set_self entries i (gate stub 0x08 0x8e) null_gate inside
sets_first stub stubs i entries inside rest (suc k) h =
    ap (λ v. get_or rest.after v null_gate) {x = i + suc k} {y = i + 1 + k} (omega arith)
    ∙ rest.sets k (omega arith)

set_gates_lem :
    (stubs : List ℕ) (i : ℕ) (entries : List IdtEntry)
    → i + length stubs ≤ length entries
    → Set stubs i entries
unfolding set_gates
set_gates_lem [] i entries room = record {
  after = entries;
  runs = refl;
  size = refl;
  sets = λ k h. absurd (omega arith);
  keeps = λ v h. refl;
}
set_gates_lem (stub ∷ stubs) i entries room =
    let first = set entries i (gate stub 0x08 0x8e) in
    let kept = length-set entries i (gate stub 0x08 0x8e) in
    let rest = set_gates_lem stubs (i + 1) first (omega arith) in
    record {
      after = rest.after;
      runs = rw (written i stub entries (omega arith)) rest.runs;
      size = rest.size ∙ kept;
      sets = sets_first stub stubs i entries (omega arith) rest;
      keeps = λ v h.
          rest.keeps v (below_or_behind i v (length stubs) h)
          ∙ get_or-set_ne entries i v (gate stub 0x08 0x8e) null_gate (λ e. omega arith);
    }

get_or-front : (xs ys : List ℕ) (i : ℕ) → i < length xs → get_or (xs ++ ys) i 0 ≡ get_or xs i 0
get_or-front [] ys i h = absurd (omega arith)
get_or-front (x ∷ xs) ys zero h = refl
get_or-front (x ∷ xs) ys (suc i) h = get_or-front xs ys i (omega arith)

get_or-behind :
    (xs ys : List ℕ) (i : ℕ) → length xs ≤ i → get_or (xs ++ ys) i 0 ≡ get_or ys (i - length xs) 0
get_or-behind [] ys i h = ap (λ n. get_or ys n 0) (omega arith)
get_or-behind (x ∷ xs) ys zero h = absurd (omega arith)
get_or-behind (x ∷ xs) ys (suc i) h =
    get_or-behind xs ys i (omega arith) ∙ ap (λ n. get_or ys n 0) (omega arith)

-- With 32 and 16 stubs, `idt_init` returns with a table of the same size, loaded with its limit of 256 gates.
-- In it the gate of every vector below 48 leads to its stub, the exceptions' before the controllers', in the
-- kernel's code segment, and programs in user mode may call it.
pub idt_init_lem :
    (table : ℕ) (isr irq : List ℕ) (entries : List IdtEntry) (v : ℕ)
    → length isr ≡ 32
    → length irq ≡ 16
    → length entries ≡ 256
    → v < 48
    → get_or (isr ++ irq) v 0 < 2 ^ 32
    → (after : List IdtEntry) × (idt_init table isr irq entries
        ≡ done (after, record { limit = 2047; base = table }))
      × (length after ≡ 256)
      × (gate_offset (get_or after v null_gate) ≡ get_or (isr ++ irq) v 0)
      × ((get_or after v null_gate).sel ≡ 8)
      × ((get_or after v null_gate).flags ≡ 0xee)
unfolding idt_init
idt_init_lem table isr irq entries v exceptions controllers size small word =
    let cleared = length-set entries 0 null_gate in
    let first = set_gates_lem isr 0 (set entries 0 null_gate) (omega arith) in
    let second = set_gates_lem irq 32 first.after (omega (arith, first.size)) in
    let stub = get_or (isr ++ irq) v 0 in
    let (offset, sel, flags) = gate-reads stub 0x08 word in
    let set_to : get_or second.after v null_gate ≡ gate stub 0x08 0x8e =
      elim (Bool-cases (ltb v 32)) [
        | inl low ↦
            second.keeps v (inl (ground arith))
            ∙ ap (λ w. get_or first.after w null_gate) {x = v} {y = 0 + v} (omega arith)
            ∙ first.sets v (ground arith)
            ∙ ap (λ base. gate base 0x08 0x8e) (sym (get_or-front isr irq v (ground arith)))
        | inr high ↦
            ap (λ w. get_or second.after w null_gate) {x = v} {y = 32 + (v - 32)} (ground arith)
            ∙ second.sets (v - 32) (ground arith)
            ∙ ap (λ base. gate base 0x08 0x8e)
                (sym (
                  get_or-behind isr irq v (ground arith)
                  ∙ ap (λ n. get_or irq (v - n) 0) exceptions))
      ] in
    (
      second.after,
      rw (first.runs, second.runs) refl,
      second.size ∙ first.size ∙ cleared ∙ size,
      rw set_to offset,
      rw set_to sel,
      rw set_to flags,
    )
