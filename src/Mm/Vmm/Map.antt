-- ===== src/Mm/Vmm/Map.antt =====
-- `vmm_map_page`: what it does to the address translation.
use holyos.Base.{
  ℕ, ◌+◌, ◌*◌, ◌/◌, ◌%◌, ◌^◌, ◌<◌, ◌≤◌, ◌≡◌, ◌≢◌, ◌⊎◌, inl, inr, refl, sym, ◌∙◌, ap, subst, true,
  false, done, arith, none, some, bit_or, bit_and_ten, bit_or-one, bit_or_fields, ==_ne,
}
use native.Mathlib.Decide.{ℕ_discrete}
use holyos.Mm.Pmm.{Pmm}
use holyos.Mm.Pmm.Frames.{used}
use holyos.Mm.Pmm.Alloc.{Took, aligned-Took}
use holyos.Mm.Vmm.{Vmm, write, clear_words, pd_index, pt_index, page_present, add_table}
use holyos.Mm.Vmm.Mmu.{frame, translate}
use holyos.Mm.Vmm.Tables.{
  InUse, entry_at, IsPresent, IsSound, store_low, IsOutside, write_ne, cleared, cleared-outside,
  cleared_inside, clear_words-IsSound,
}

-- The word that an entry gets: the address in its upper bits, and the present bit.
pub entry_word :
    (addr flags : ℕ)
    → addr % 4096 ≡ 0
    → addr < 2 ^ 32
    → flags < 4096
    → let word = bit_or (bit_or addr flags) page_present in
      (frame word ≡ addr) × (word % 2 ≡ 1) × (word < 2 ^ 32)
entry_word addr flags aligned small low =
    let fields = bit_or_fields 12 (addr / 4096) flags low in
    let whole : bit_or addr flags ≡ addr + flags =
      ap (λ a. bit_or a flags) {x = addr} {y = addr / 4096 * 2 ^ 12} (omega arith)
      ∙ fields
      ∙ omega arith in
    rw (whole, bit_or-one (addr + flags)) (omega arith, omega arith, omega arith)

-- The indices of an address in the two levels.
abbrev pub upper : ℕ → ℕ
upper virt = virt / 2 ^ 22 % 1024

abbrev pub lower : ℕ → ℕ
lower virt = virt / 2 ^ 12 % 1024

-- The translation of an address depends on two words.
pub translate_same :
    (ram ram' : ℕ → ℕ) (cr3 a : ℕ)
    → ram' (cr3 + 4 * upper a) ≡ ram (cr3 + 4 * upper a)
    → (IsPresent (ram (cr3 + 4 * upper a))
        → ram' (frame (ram (cr3 + 4 * upper a)) + 4 * lower a)
          ≡ ram (frame (ram (cr3 + 4 * upper a)) + 4 * lower a))
    → translate ram' cr3 a ≡ translate ram cr3 a
unfolding translate
translate_same ram ram' cr3 a entry page = ground (arith, entry, page)

pub translate_absent :
    (ram : ℕ → ℕ) (cr3 a : ℕ) → ram (cr3 + 4 * upper a) % 2 ≡ 0 → translate ram cr3 a ≡ none
unfolding translate
translate_absent ram cr3 a absent = ground (arith, absent)

pub translate_no_page :
    (ram : ℕ → ℕ) (cr3 a : ℕ)
    → ram (frame (ram (cr3 + 4 * upper a)) + 4 * lower a) ≡ 0
    → translate ram cr3 a ≡ none
unfolding translate
translate_no_page ram cr3 a empty = ground (arith, empty)

pub translate_page :
    (ram : ℕ → ℕ) (cr3 a phys : ℕ)
    → IsPresent (ram (cr3 + 4 * upper a))
    → IsPresent (ram (frame (ram (cr3 + 4 * upper a)) + 4 * lower a))
    → frame (ram (frame (ram (cr3 + 4 * upper a)) + 4 * lower a)) ≡ phys
    → translate ram cr3 a ≡ some (phys + a % 4096)
unfolding translate
translate_page ram cr3 a phys entry page at = ground (arith, entry, page, at)

-- A frame that was in use stays in use.
pub InUse-Took :
    {pmm : Pmm} {block addr : ℕ} {result : ℕ × Pmm}
    → Took pmm block result
    → InUse pmm addr
    → InUse result.1 addr
InUse-Took {pmm} {block} {addr} t u = record {
  aligned = u.aligned;
  exists = omega (arith, u.exists, t.same_size);
  taken =
      t.others (addr / 4096)
        (λ e. absurd (omega (arith, u.taken, t.was_free, ap (λ (b : ℕ). used pmm.bitmap b) e)))
      ∙ u.taken;
}

-- A frame that the allocator has just handed out.
pub new-InUse :
    {pmm : Pmm} {block : ℕ} {result : ℕ × Pmm} → Took pmm block result → InUse result.1 result.0
new-InUse {pmm} {block} {result} t =
    let here : result.0 / 4096 ≡ block = omega (arith, t.address) in
    record {
      aligned = omega (arith, t.address);
      exists = omega (arith, t.in_range, t.same_size);
      taken = ap (λ b. used result.1.bitmap b) here ∙ t.now_used;
    }

-- Taking a frame changes nothing for the tables, and the frame is outside them.
pub IsSound-Took :
    {s : Vmm} {block : ℕ} {result : ℕ × Pmm}
    → IsSound s
    → Took s.pmm block result
    → IsSound (record s { pmm = result.1 }) × IsOutside (record s { pmm = result.1 }) result.0
IsSound-Took {s} {block} {result} v t =
    let differs : (addr : ℕ) → InUse s.pmm addr → frame result.0 ≢ addr = λ addr u e. omega (
      arith,
      u.taken,
      t.was_free,
      t.address,
      u.aligned,
      ap (λ (b : ℕ). used s.pmm.bitmap b) {x = addr / 4096} {y = block} (omega (arith, t.address)),
    ) in
    (
      record {
        valid = t.valid;
        paged = v.paged;
        loaded = v.loaded;
        low = omega (arith, v.low, t.same_size);
        reserved =
            t.others 0 (λ e.
              absurd (omega (arith, v.reserved, t.was_free, ap (λ (b : ℕ). used s.pmm.bitmap b) e)))
            ∙ v.reserved;
        directory = InUse-Took t v.directory;
        word = v.word;
        table = λ i a p. (InUse-Took t (v.table i a p).0, (v.table i a p).1);
        apart = v.apart;
        first = v.first;
        identity = v.identity;
      },
      record {
        no_directory = differs s.current_page_directory v.directory;
        no_table = λ i a p. differs (frame (entry_at s i)) (v.table i a p).0;
      },
    )

-- The entry of the directory that the code reads is the one that the processor reads.
pub pd_index_lem : (virt : ℕ) → pd_index virt ≡ upper virt
pd_index_lem virt = bit_and_ten (virt / 2 ^ 22)

pub pt_index_lem : (virt : ℕ) → pt_index virt ≡ lower virt
pt_index_lem virt = bit_and_ten (virt / 2 ^ 12)

-- What both parts of `vmm_map_page` keep.
pub record Keeps (s s' : Vmm) : Type 0 where
  pub sound : IsSound s'
  pub same_next : s'.next_virt ≡ s.next_virt
  pub in_use : (addr : ℕ) → InUse s.pmm addr → InUse s'.pmm addr

-- Writing the entry of the directory for a table that was just cleared.
pub entry_added :
    (s : Vmm) (i base word : ℕ)
    → IsSound s
    → i < 1024
    → entry_at s i % 2 ≡ 0
    → InUse s.pmm base
    → IsOutside s base
    → ((k : ℕ) → k < 1024 → s.ram (base + 4 * k) ≡ 0)
    → (frame word ≡ base) × (word % 2 ≡ 1) × (word < 2 ^ 32)
    → let s' = record s { ram = write s.ram (s.current_page_directory + 4 * i) word } in
      IsSound s'
      × (entry_at s' i ≡ word)
      × ((a : ℕ) → translate s'.ram s.cr3 a ≡ translate s.ram s.cr3 a)
entry_added s i base word v small absent u o empty w =
    let slot = s.current_page_directory + 4 * i in
    let ram' = write s.ram slot word in
    let here : ram' slot ≡ word = ground arith in
    let other : (j : ℕ) → j ≢ i → ram' (s.current_page_directory + 4 * j) ≡ entry_at s j =
      λ j ne. write_ne s.ram slot word (s.current_page_directory + 4 * j) (λ e. ne (omega arith)) in
    let in_table : (addr : ℕ)
        → addr % 4096 ≡ 0
        → addr ≢ s.current_page_directory
        → (k : ℕ) → k < 1024
        → ram' (addr + 4 * k) ≡ s.ram (addr + 4 * k) =
      λ addr aligned ne k room.
        write_ne s.ram slot word (addr + 4 * k) (λ e. ne (omega (arith, v.directory.aligned))) in
    let frame_base : frame base ≡ base = omega (arith, u.aligned) in
    let not_zero : 0 ≢ i =
      λ e. absurd (omega (arith, v.first, absent, ap (λ (j : ℕ). entry_at s j) e)) in
    (
      record {
        valid = v.valid;
        paged = v.paged;
        loaded = v.loaded;
        low = v.low;
        reserved = v.reserved;
        directory = v.directory;
        word = λ j a. elim (ℕ_discrete j i) [
          | yes e ↦ rw (e, here) w.2
          | no ne ↦ rw (other j ne) (v.word j a)
        ];
        table = λ j a. elim (ℕ_discrete j i) [
          | yes e ↦ rw (e, here, w.0) (λ p. (u, λ e'. o.no_directory (frame_base ∙ e')))
          | no ne ↦ rw (other j ne) (v.table j a)
        ];
        apart = λ j k a b ne. elim (ℕ_discrete j i) [
          | yes e ↦ elim (ℕ_discrete k i) [
            | yes e' ↦ λ p q. absurd (ne (e ∙ sym e'))
            | no ne' ↦ rw (e, here, w.0, other k ne') (λ p q e'. o.no_table k b q (frame_base ∙ e'))
          ]
          | no ne1 ↦ elim (ℕ_discrete k i) [
            | yes e ↦
                rw (other j ne1, e, here, w.0) (λ p q e'. o.no_table j a p (frame_base ∙ sym e'))
            | no ne2 ↦ rw (other j ne1, other k ne2) (v.apart j k a b ne)
          ]
        ];
        first = rw (other 0 not_zero) v.first;
        identity = λ k room. rw (other 0 not_zero) (
            in_table (frame (entry_at s 0)) (omega arith) (v.table 0 (omega arith) v.first).1 k room
            ∙ v.identity k room);
      },
      here,
      λ a. rw (v.loaded) (elim (ℕ_discrete (upper a) i) [
        | yes e ↦
            translate_no_page ram' s.current_page_directory a (
              rw (e, here, w.0)
                (in_table base u.aligned (λ e'. o.no_directory (frame_base ∙ e')) (lower a)
                    (omega arith)
                  ∙ empty (lower a) (omega arith)))
            ∙ sym (translate_absent s.ram s.current_page_directory a (rw e absent))
        | no ne ↦ translate_same s.ram ram' s.current_page_directory a (other (upper a) ne) (λ p.
            in_table (frame (entry_at s (upper a))) (omega arith)
              (v.table (upper a) (omega arith) p).1 (lower a) (omega arith))
      ]),
    )

-- A free frame is not frame 0, whose address the code takes for a failure.
pub Took-nonzero :
    {pmm : Pmm} {block : ℕ} {result : ℕ × Pmm}
    → used pmm.bitmap 0 ≡ 1
    → Took pmm block result
    → result.0 ≢ 0
Took-nonzero {pmm} {block} reserved t e = omega (
  arith,
  reserved,
  t.was_free,
  t.address,
  ap (λ (b : ℕ). used pmm.bitmap b) {x = 0} {y = block} (omega (arith, t.address)),
)

-- The frame handed out lies below 4 MiB.
pub Took-low :
    {s : Vmm} {block : ℕ} {result : ℕ × Pmm}
    → IsSound s
    → Took s.pmm block result
    → (result.0 < 2 ^ 22) × (result.0 % 4096 ≡ 0)
Took-low v t = (omega (arith, v.low, t.in_range, t.address), omega (arith, t.address))

-- The state with the new table cleared and entered.
table_state : Vmm → ℕ → ℕ → ℕ × Pmm → Vmm
table_state s virt flags result = record s {
  pmm = result.1;
  ram =
      write (cleared s.ram result.0 1024) (s.current_page_directory + 4 * upper virt)
        (bit_or (bit_or result.0 flags) page_present);
}

table_state_lem :
    (virt flags : ℕ) (s : Vmm) {block : ℕ} {result : ℕ × Pmm}
    → IsSound s
    → flags < 4096
    → entry_at s (upper virt) % 2 ≡ 0
    → Took s.pmm block result
    → (clear_words 1024 result.0 (record s { pmm = result.1 })
        ≡ done (record s { pmm = result.1; ram = cleared s.ram result.0 1024 }))
      × IsSound (record s { pmm = result.1; ram = cleared s.ram result.0 1024 })
      × Keeps s (table_state s virt flags result)
      × IsPresent (entry_at (table_state s virt flags result) (upper virt))
      × ((a : ℕ)
          → translate (table_state s virt flags result).ram s.cr3 a ≡ translate s.ram s.cr3 a)
unfolding table_state
table_state_lem virt flags s {block} {result} v low absent t =
    let base = result.0 in
    let (v0, o) = IsSound-Took v t in
    let (small, aligned) = Took-low v t in
    let s0 = record s { pmm = result.1 } in
    let start : base + 4 * 0 ≡ base = omega arith in
    let ram1 = cleared s.ram base 1024 in
    let s1 = record s0 { ram = ram1 } in
    let outside : (addr k : ℕ)
        → frame base ≢ addr
        → addr % 4096 ≡ 0
        → k < 1024
        → ram1 (addr + 4 * k) ≡ s.ram (addr + 4 * k) =
      λ addr k ne al room.
        cleared-outside s.ram base 1024 (addr + 4 * k)
          (apart base addr k aligned al (λ e. ne e) room) in
    let (did, v1) =
      subst
        (λ a.
          (clear_words 1024 a s0 ≡ done (record s0 { ram = cleared s.ram a 1024 }))
          × IsSound (record s0 { ram = cleared s.ram a 1024 }))
        start (clear_words-IsSound 1024 0 base s0 v0 o aligned small (omega arith)) in
    let entries : (i : ℕ) → i < 1024 → entry_at s1 i ≡ entry_at s i =
      λ i a. outside s.current_page_directory i o.no_directory v.directory.aligned a in
    let i_small : upper virt < 1024 = omega arith in
    let o1 : IsOutside s1 base = record {
      no_directory = o.no_directory;
      no_table = λ i a. rw (entries i a) (o.no_table i a);
    } in
    let (v2, there, same) =
      entry_added s1 (upper virt) base (bit_or (bit_or base flags) page_present) v1 i_small
        (rw (entries (upper virt) i_small) absent) (new-InUse t) o1
        (λ k room. cleared_inside s.ram base 1024 k room)
        (entry_word base flags aligned (omega arith) low) in
    (
      did,
      v1,
      record { sound = v2; same_next = refl; in_use = λ addr u. InUse-Took t u },
      rw there ((entry_word base flags aligned (omega arith) low).1),
      λ a.
          same a
          ∙ rw (v.loaded) (
              translate_same s.ram ram1 s.current_page_directory a (entries (upper a) (omega arith))
                (λ p.
                  outside (frame (entry_at s (upper a))) (lower a)
                    (o.no_table (upper a) (omega arith) p) (omega arith) (omega arith))),
    )
  where
    apart :
        (base addr k : ℕ)
        → base % 4096 ≡ 0
        → addr % 4096 ≡ 0
        → (frame base ≡ addr → ⊥)
        → k < 1024
        → (addr + 4 * k < base) ⊎ (base + 4 * 1024 ≤ addr + 4 * k)
    apart base addr k aligned al ne room = ground (arith, ne)

-- With no frame left, the table is refused; otherwise it is added, and no translation changes.
pub add_table_lem :
    (virt flags : ℕ) (s : Vmm)
    → IsSound s
    → flags < 4096
    → entry_at s (upper virt) % 2 ≡ 0
    → (add_table virt flags s ≡ done (false, s))
      ⊎ ((s' : Vmm) × (add_table virt flags s ≡ done (true, s'))
          × Keeps s s'
          × IsPresent (entry_at s' (upper virt))
          × ((a : ℕ) → translate s'.ram s'.cr3 a ≡ translate s.ram s.cr3 a))
unfolding add_table table_state
add_table_lem virt flags s v low absent =
    let (result, returned, took) = aligned-Took v.valid in
    elim took [
      | inl n ↦
          let same : record s { pmm = result.1 } ≡ s = ap (λ p. record s { pmm = p }) n.unchanged in
          inl (rw (returned, n.null) (ap (λ t. done (false, t)) same))
      | inr (block, t) ↦
          let (did, v1, keeps, there, same) = table_state_lem virt flags s v low absent t in
          inr (
            table_state s virt flags result,
            rw (
              returned,
              did,
              ==_ne result.0 0 (Took-nonzero v.reserved t),
              pd_index_lem virt,
              store_low _ (s.current_page_directory + 4 * upper virt)
                  (bit_or (bit_or result.0 flags) page_present) v1
                  (omega (arith, v1.low, v1.directory.aligned, v1.directory.exists)),
            ),
            keeps,
            there,
            same,
          )
    ]
