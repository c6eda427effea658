-- ===== src/Mm/Vmm/Init.antt =====
-- `vmm_init`: the first 4 MiB are mapped to themselves and nothing else is mapped.
use holyos.Base.{
  ℕ, zero, suc, ◌+◌, ◌*◌, ◌/◌, ◌%◌, ◌^◌, ◌<◌, ◌≤◌, ◌≡◌, ◌≢◌, ◌⊎◌, inl, inr, refl, sym, ◌∙◌, ap,
  true, false, done, ◌>>=◌, arith, none, some, u32, bit_or, bit_or_fields, bit, bit_ext, bit-bit_or,
  zero-bit,
}
use native.Mathlib.Decide.{ℕ_discrete}
use holyos.Mm.Pmm.{Pmm, pmm_alloc_page_aligned}
use holyos.Mm.Pmm.Frames.{used}
use holyos.Mm.Pmm.Valid
use holyos.Mm.Pmm.Alloc.{Took, TookNone, aligned-Took}
use holyos.Mm.Vmm.{
  Vmm, write, store, clear_words, identity_loop, vmm_init, page_present, page_write, page_size,
}
use holyos.Mm.Vmm.Mmu.{frame, translate}
use holyos.Mm.Vmm.Tables.{
  IsSound, write_ne, cleared, cleared-outside, cleared_inside, translate_low,
}
use holyos.Mm.Vmm.Map.{upper, InUse-Took, new-InUse, translate_absent}

-- While paging is off, a store goes where it says.
store_off :
    (addr word : ℕ) (s : Vmm)
    → s.paging ≡ false
    → store addr word s ≡ done (record s { ram = write s.ram addr word })
unfolding store
store_off addr word s off = rw off

clear_words_off :
    (words addr : ℕ) (s : Vmm)
    → s.paging ≡ false
    → clear_words words addr s ≡ done (record s { ram = cleared s.ram addr words })
unfolding clear_words cleared
clear_words_off zero addr s off = refl
clear_words_off (suc words) addr s off =
    ap (λ r. r >>= λ s'. clear_words words (addr + 4) s') (store_off addr 0 s off)
    ∙ clear_words_off words (addr + 4) (record s { ram = write s.ram addr 0 }) off

-- An address of a page with the present and the write bit.
two_bits : (q : ℕ) → bit_or (bit_or (q * 4096) page_present) page_write ≡ q * 4096 + 3
two_bits q =
    ap (λ w. bit_or w page_write) (bit_or_fields 12 q 1 (omega arith))
    ∙ bit_ext (bit_or (q * 2 ^ 12 + 1) 2) (q * 4096 + 3) at
  where
    at : (j : ℕ) → bit (bit_or (q * 2 ^ 12 + 1) 2) j ≡ bit (q * 4096 + 3) j
    at zero = omega (arith, bit-bit_or (q * 2 ^ 12 + 1) 2 zero)
    at (suc zero) = omega (arith, bit-bit_or (q * 2 ^ 12 + 1) 2 (suc zero))
    at (suc (suc j)) =
        bit-bit_or (q * 2 ^ 12 + 1) 2 (suc (suc j))
        ∙ omega (
          arith,
          zero-bit j,
          ap (λ (w : ℕ). bit w j) {x = (q * 2 ^ 12 + 1) / 2 / 2} {y = q * 1024} (omega arith),
          ap (λ (w : ℕ). bit w j) {x = (q * 4096 + 3) / 2 / 2} {y = q * 1024} (omega arith),
        )

-- The memory after rounds of the loop.
filled : (ℕ → ℕ) → ℕ → ℕ → ℕ → (ℕ → ℕ)
filled ram table i zero = ram
filled ram table i (suc rounds) =
    filled (write ram (table + 4 * i) (i * 4096 + 3)) table (i + 1) rounds

identity_loop_off :
    (rounds i table : ℕ) (s : Vmm)
    → s.paging ≡ false
    → i + rounds ≤ 1024
    → identity_loop rounds i table s ≡ done (record s { ram = filled s.ram table i rounds })
unfolding identity_loop filled
identity_loop_off zero i table s off small = refl
identity_loop_off (suc rounds) i table s off small =
    let word : bit_or (bit_or (u32 (i * page_size)) page_present) page_write ≡ i * 4096 + 3 =
      ap (λ w. bit_or (bit_or w page_present) page_write) {x = u32 (i * page_size)} {y = i * 4096}
        (omega arith)
      ∙ two_bits i in
    rw word (
      ap (λ r. r >>= λ s'. identity_loop rounds (i + 1) table s')
        (store_off (table + 4 * i) (i * 4096 + 3) s off)
      ∙ identity_loop_off rounds (i + 1) table
          (record s { ram = write s.ram (table + 4 * i) (i * 4096 + 3) }) off (omega arith))

filled-outside :
    (ram : ℕ → ℕ) (table i rounds q : ℕ)
    → (q < table + 4 * i) ⊎ (table + 4 * i + 4 * rounds ≤ q)
    → filled ram table i rounds q ≡ ram q
unfolding filled
filled-outside ram table i zero q out = refl
filled-outside ram table i (suc rounds) q out =
    filled-outside (write ram (table + 4 * i) (i * 4096 + 3)) table (i + 1) rounds q (ground arith)
    ∙ ground arith

filled_inside :
    (ram : ℕ → ℕ) (table i rounds k : ℕ)
    → i ≤ k
    → k < i + rounds
    → filled ram table i rounds (table + 4 * k) ≡ 4096 * k + 3
unfolding filled
filled_inside ram table i zero k from to = absurd (omega arith)
filled_inside ram table i (suc rounds) k from to =
    let ram' = write ram (table + 4 * i) (i * 4096 + 3) in
    elim (ℕ_discrete i k) [
      | yes e ↦
          filled-outside ram' table (i + 1) rounds (table + 4 * k) (inl (omega arith))
          ∙ rw e (ground arith)
      | no ne ↦ filled_inside ram' table (i + 1) rounds k (omega arith) (omega arith)
    ]

-- What `vmm_init` relies on: memory below 4 MiB, two frames of it free, and paging still off.
pub record IsReady (s : Vmm) : Type 0 where
  pub valid : Valid.IsValid s.pmm
  pub off : s.paging ≡ false
  pub low : s.pmm.max_blocks ≤ 1024
  pub one : ℕ
  pub two : ℕ
  pub distinct : one ≢ two
  pub one_exists : one < s.pmm.max_blocks
  pub two_exists : two < s.pmm.max_blocks
  pub one_free : used s.pmm.bitmap one ≡ 0
  pub two_free : used s.pmm.bitmap two ≡ 0

-- A frame that is free makes the allocation succeed.
takes :
    {pmm : Pmm} {block : ℕ} {result : ℕ × Pmm}
    → block < pmm.max_blocks
    → used pmm.bitmap block ≡ 0
    → TookNone pmm result ⊎ ((b : ℕ) × Took pmm b result)
    → (b : ℕ) × Took pmm b result
takes {pmm} {block} exists free (inl n) = absurd (omega (arith, n.all_used block exists, free))
takes exists free (inr t) = t

-- The memory that `vmm_init` leaves.
final_ram : (ℕ → ℕ) → ℕ → ℕ → (ℕ → ℕ)
final_ram ram directory table =
    write (filled (cleared (cleared ram directory 1024) table 1024) table 0 1024) directory
      (table + 3)

module _ (ram : ℕ → ℕ) (directory table : ℕ) (d : directory % 4096 ≡ 0) (t : table % 4096 ≡ 0)
    (ne : directory ≢ table) where
  final_first : final_ram ram directory table (directory + 4 * 0) ≡ table + 3
  unfolding final_ram
  final_first = ground arith

  final_rest : (i : ℕ) → i < 1024 → i ≢ 0 → final_ram ram directory table (directory + 4 * i) ≡ 0
  unfolding final_ram
  final_rest i small nonzero =
      let q = directory + 4 * i in
      let ram2 = cleared (cleared ram directory 1024) table 1024 in
      let apart : (q < table) ⊎ (table + 4096 ≤ q) = ground arith in
      write_ne (filled ram2 table 0 1024) directory (table + 3) q (λ e. nonzero (omega arith))
      ∙ filled-outside ram2 table 0 1024 q (ground arith)
      ∙ cleared-outside (cleared ram directory 1024) table 1024 q (ground arith)
      ∙ cleared_inside ram directory 1024 i small

  final_table : (k : ℕ) → k < 1024 → final_ram ram directory table (table + 4 * k) ≡ 4096 * k + 3
  unfolding final_ram
  final_table k small =
      let ram2 = cleared (cleared ram directory 1024) table 1024 in
      write_ne (filled ram2 table 0 1024) directory (table + 3) (table + 4 * k)
        (λ e. ne (omega arith))
      ∙ filled_inside ram2 table 0 1024 k (omega arith) (omega arith)

init_run :
    (s : Vmm) {r1 r2 : ℕ × Pmm}
    → s.paging ≡ false
    → pmm_alloc_page_aligned s.pmm ≡ done r1
    → pmm_alloc_page_aligned r1.1 ≡ done r2
    → r2.0 % 4096 ≡ 0
    → vmm_init s
      ≡ done (record s {
        ram = final_ram s.ram r1.0 r2.0;
        pmm = r2.1;
        current_page_directory = r1.0;
        cr3 = r1.0;
        paging = true;
      })
unfolding vmm_init final_ram
init_run s {r1} {r2} off first second aligned =
    let s1 = record s { pmm = r1.1; current_page_directory = r1.0 } in
    let s2 = record s1 { ram = cleared s.ram r1.0 1024; pmm = r2.1 } in
    let s3 = record s2 { ram = cleared s2.ram r2.0 1024 } in
    let s4 = record s3 { ram = filled s3.ram r2.0 0 1024 } in
    let word : bit_or (bit_or r2.0 page_present) page_write ≡ r2.0 + 3 =
      ap (λ w. bit_or (bit_or w page_present) page_write) {x = r2.0} {y = r2.0 / 4096 * 4096}
        (omega arith)
      ∙ two_bits (r2.0 / 4096)
      ∙ omega arith in
    rw (
      first,
      clear_words_off 1024 r1.0 s1 off,
      second,
      clear_words_off 1024 r2.0 s2 off,
      identity_loop_off 1024 0 r2.0 s3 off (omega arith),
      word,
      store_off r1.0 (r2.0 + 3) s4 off,
    )

-- With two free frames and all memory below 4 MiB, `vmm_init` returns with sound tables and paging on:
-- every address below 4 MiB goes to itself and no other address is mapped.
pub vmm_init_lem :
    (s : Vmm)
    → IsReady s
    → (s' : Vmm) × (vmm_init s ≡ done s')
      × IsSound s'
      × (s'.next_virt ≡ s.next_virt)
      × ((a : ℕ) → a < 2 ^ 22 → translate s'.ram s'.cr3 a ≡ some a)
      × ((a : ℕ) → 2 ^ 22 ≤ a → a < 2 ^ 32 → translate s'.ram s'.cr3 a ≡ none)
vmm_init_lem s b =
    let (r1, first, took1) = aligned-Took b.valid in
    let (b1, t1) = takes b.one_exists b.one_free took1 in
    let (r2, second, took2) = aligned-Took t1.valid in
    let (b2, t2) = takes_second b t1 took2 in
    let ne : r1.0 ≢ r2.0 = λ e. absurd (
      omega (
        arith,
        t1.address,
        t2.address,
        t2.was_free,
        t1.now_used,
        ap (λ (i : ℕ). used r1.1.bitmap i) {x = b1} {y = b2}
            (omega (arith, t1.address, t2.address)),
      )) in
    let d : r1.0 % 4096 ≡ 0 = omega (arith, t1.address) in
    let t : r2.0 % 4096 ≡ 0 = omega (arith, t2.address) in
    let small2 : r2.0 < 2 ^ 22 = omega (arith, t2.address, t2.in_range, t1.same_size, b.low) in
    let at0 = final_first s.ram r1.0 r2.0 d t ne in
    let rest = final_rest s.ram r1.0 r2.0 d t ne in
    let whole : frame (r2.0 + 3) ≡ r2.0 = omega arith in
    let table_in_use = new-InUse t2 in
    let s' = record s {
      ram = final_ram s.ram r1.0 r2.0;
      pmm = r2.1;
      current_page_directory = r1.0;
      cr3 = r1.0;
      paging = true;
    } in
    let sound : IsSound s' = record {
      valid = t2.valid;
      paged = refl;
      loaded = refl;
      low = omega (arith, b.low, t1.same_size, t2.same_size);
      reserved = frame_0 t1 t2;
      directory = InUse-Took t2 (new-InUse t1);
      word = λ i a. elim (ℕ_discrete i 0) [
        | yes e ↦ rw (e, at0) (omega arith)
        | no nonzero ↦ rw (rest i a nonzero) (omega arith)
      ];
      table = λ i a. elim (ℕ_discrete i 0) [
        | yes e ↦ rw (e, at0, whole) (λ p. (table_in_use, λ e'. ne (sym e')))
        | no nonzero ↦ rw (rest i a nonzero) (λ p. absurd (omega arith))
      ];
      apart = λ i j a c differ. elim (ℕ_discrete i 0) [
        | yes e ↦ rw (rest j c (λ e'. differ (e ∙ sym e'))) (λ p q. absurd (omega arith))
        | no nonzero ↦ rw (rest i a nonzero) (λ p. absurd (omega arith))
      ];
      first = rw at0 (omega arith);
      identity = λ k a. rw (at0, whole) (final_table s.ram r1.0 r2.0 d t ne k a);
    } in
    (
      s',
      init_run s b.off first second t,
      sound,
      refl,
      λ a small. translate_low s' a sound small,
      λ a above small.
          translate_absent s'.ram r1.0 a
            (rw (rest (upper a) (omega arith) (omega arith)) (omega arith)),
    )
  where
    takes_second :
        {s : Vmm} {b1 : ℕ} {r1 r2 : ℕ × Pmm}
        → IsReady s
        → Took s.pmm b1 r1
        → TookNone r1.1 r2 ⊎ ((b : ℕ) × Took r1.1 b r2)
        → (b : ℕ) × Took r1.1 b r2
    takes_second {s} {b1} b t1 o = elim (ℕ_discrete b.one b1) [
      | yes e ↦
          takes {block = b.two} (omega (arith, t1.same_size, b.two_exists))
            (t1.others b.two (λ e'. b.distinct (e ∙ sym e')) ∙ b.two_free) o
      | no ne ↦
          takes {block = b.one} (omega (arith, t1.same_size, b.one_exists))
            (t1.others b.one ne ∙ b.one_free) o
    ]

    frame_0 :
        {pmm : Pmm} {b1 b2 : ℕ} {r1 r2 : ℕ × Pmm}
        → Took pmm b1 r1
        → Took r1.1 b2 r2
        → used r2.1.bitmap 0 ≡ 1
    frame_0 {b2} {r2} t1 t2 = elim (ℕ_discrete 0 b2) [
      | yes e ↦ ap (λ (i : ℕ). used r2.1.bitmap i) e ∙ t2.now_used
      | no ne ↦ t2.others 0 ne ∙ t2.lowest 0 (omega arith)
    ]
