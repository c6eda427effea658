-- ===== src/Mm/Vmm/Entry.antt =====
-- `vmm_map_page` as a whole: after the table is there, the entry of the page is written.
use holyos.Base.{
  ℕ, ◌+◌, ◌*◌, ◌/◌, ◌%◌, ◌^◌, ◌<◌, ◌≤◌, ◌≡◌, ◌≢◌, ◌⊎◌, inl, inr, refl, sym, ◌∙◌, ap, Bool, true,
  false, done, if◌then◌else◌, arith, some, bit_or, bit_and-one, bit_and_page,
}
use native.Mathlib.Decide.{ℕ_discrete}
use holyos.Mm.Vmm.{Vmm, write, page_present, set_entry, add_table, vmm_map_page}
use holyos.Mm.Vmm.Mmu.{frame, translate}
use holyos.Mm.Vmm.Tables.{entry_at, IsPresent, IsSound, load_low, store_low, write_ne}
use holyos.Mm.Vmm.Map.{
  entry_word, upper, lower, translate_same, translate_page, pd_index_lem, pt_index_lem, Keeps,
  add_table_lem,
}

-- Two addresses of one page.
abbrev pub SamePage : ℕ → ℕ → Type 0
SamePage a virt = a / 4096 ≡ virt / 4096

-- A word written into a page table.
abbrev pub slot : Vmm → ℕ → ℕ
slot s virt = frame (entry_at s (upper virt)) + 4 * lower virt

module _ (s : Vmm) (virt word : ℕ) (v : IsSound s) (present : IsPresent (entry_at s (upper virt)))
    (high : upper virt ≢ 0) where
  pub entries :
      (i : ℕ)
      → i < 1024
      → write s.ram (slot s virt) word (s.current_page_directory + 4 * i) ≡ entry_at s i
  entries i a =
      let t = v.table (upper virt) (omega arith) present in
      write_ne s.ram (slot s virt) word (s.current_page_directory + 4 * i)
        (λ e. t.1 (omega (arith, v.directory.aligned)))

  other_table :
      (i k : ℕ)
      → i < 1024
      → k < 1024
      → i ≢ upper virt
      → IsPresent (entry_at s i)
      → write s.ram (slot s virt) word (frame (entry_at s i) + 4 * k)
        ≡ s.ram (frame (entry_at s i) + 4 * k)
  other_table i k a b ne p =
      write_ne s.ram (slot s virt) word (frame (entry_at s i) + 4 * k)
        (λ e. v.apart (upper virt) i (omega arith) a (λ e'. ne (sym e')) present p (omega arith))

  pub slot-IsSound : IsSound (record s { ram = write s.ram (slot s virt) word })
  slot-IsSound = record {
    valid = v.valid;
    paged = v.paged;
    loaded = v.loaded;
    low = v.low;
    reserved = v.reserved;
    directory = v.directory;
    word = λ i a. rw (entries i a) (v.word i a);
    table = λ i a. rw (entries i a) (v.table i a);
    apart = λ i j a b ne. rw (entries i a, entries j b) (v.apart i j a b ne);
    first = rw (entries 0 (omega arith)) v.first;
    identity = λ k room.
        rw (entries 0 (omega arith))
          (other_table 0 k (omega arith) room (λ e. high (sym e)) v.first ∙ v.identity k room);
  }

  -- Only addresses of the page of `virt` are translated otherwise than before.
  pub slot_others :
      (a : ℕ)
      → (upper a ≡ upper virt → lower a ≢ lower virt)
      → translate (write s.ram (slot s virt) word) s.current_page_directory a
        ≡ translate s.ram s.current_page_directory a
  slot_others a ne =
      translate_same s.ram (write s.ram (slot s virt) word) s.current_page_directory a
        (entries (upper a) (omega arith))
        (λ p. elim (ℕ_discrete (upper a) (upper virt)) [
          | yes e ↦
              write_ne s.ram (slot s virt) word (frame (entry_at s (upper a)) + 4 * lower a)
                (λ e'. ne e (omega (arith, ap (λ (i : ℕ). frame (entry_at s i)) e)))
          | no ne' ↦ other_table (upper a) (lower a) (omega arith) (omega arith) ne' p
        ])

  pub slot_here :
      (a : ℕ)
      → upper a ≡ upper virt
      → lower a ≡ lower virt
      → write s.ram (slot s virt) word (
          frame (write s.ram (slot s virt) word (s.current_page_directory + 4 * upper a))
          + 4 * lower a)
        ≡ word
  slot_here a e e' = rw (e, e', entries (upper virt) (omega arith)) (ground arith)

-- The page of `virt` goes to `phys`, and every other page where it went before.
pub record Maps (virt phys : ℕ) (s s' : Vmm) : Type 0 where
  pub here :
      (a : ℕ) → a < 2 ^ 32 → SamePage a virt → translate s'.ram s'.cr3 a ≡ some (phys + a % 4096)
  pub others :
      (a : ℕ) → a < 2 ^ 32 → ¬ SamePage a virt → translate s'.ram s'.cr3 a ≡ translate s.ram s.cr3 a

set_entry_lem :
    (virt phys flags : ℕ) (s : Vmm)
    → IsSound s
    → IsPresent (entry_at s (upper virt))
    → 2 ^ 22 ≤ virt
    → virt < 2 ^ 32
    → phys % 4096 ≡ 0
    → phys < 2 ^ 32
    → flags < 4096
    → (s' : Vmm) × (set_entry virt phys flags s ≡ done (true, s'))
      × Keeps s s'
      × Maps virt phys s s'
unfolding set_entry
set_entry_lem virt phys flags s v present above small aligned frame_small low =
    let high : upper virt ≢ 0 = omega arith in
    let word = bit_or (bit_or phys flags) page_present in
    let w = entry_word phys flags aligned frame_small low in
    let t = v.table (upper virt) (omega arith) present in
    let ram' = write s.ram (slot s virt) word in
    let s' = record s { ram = ram' } in
    (
      s',
      rw (
        pd_index_lem virt,
        pt_index_lem virt,
        load_low s (s.current_page_directory + 4 * upper virt) v
            (omega (arith, v.low, v.directory.aligned, v.directory.exists)),
        bit_and_page (entry_at s (upper virt)) (v.word (upper virt) (omega arith)),
        store_low s (slot s virt) word v (omega (arith, v.low, t.0.exists)),
      ),
      record {
        sound = slot-IsSound s virt word v present high;
        same_next = refl;
        in_use = λ addr u. u;
      },
      record {
        here = λ a bound same.
            let e : upper a ≡ upper virt = omega arith in
            let e' : lower a ≡ lower virt = omega arith in
            let at = slot_here s virt word v present high a e e' in
            rw (v.loaded) (
              translate_page ram' s.current_page_directory a phys
                (rw (e, entries s virt word v present high (upper virt) (omega arith)) present)
                (rw at w.1) (rw at w.0));
        others = λ a bound ne.
            rw (v.loaded) (slot_others s virt word v present high a (λ e e'. ne (omega arith)));
      },
    )

map_present :
    (virt phys flags : ℕ) (s : Vmm)
    → IsSound s
    → IsPresent (entry_at s (upper virt))
    → vmm_map_page virt phys flags s ≡ set_entry virt phys flags s
unfolding vmm_map_page
map_present virt phys flags s v present = rw (
  pd_index_lem virt,
  load_low s (s.current_page_directory + 4 * upper virt) v
      (omega (arith, v.low, v.directory.aligned, v.directory.exists)),
  bit_and-one (entry_at s (upper virt)),
  present,
)

map_absent :
    (virt phys flags : ℕ) (s : Vmm) {ready : Bool} {s1 : Vmm}
    → IsSound s
    → entry_at s (upper virt) % 2 ≡ 0
    → add_table virt flags s ≡ done (ready, s1)
    → vmm_map_page virt phys flags s
      ≡ (if ready then set_entry virt phys flags s1 else done (false, s1))
unfolding vmm_map_page
map_absent virt phys flags s v absent added = rw (
  pd_index_lem virt,
  load_low s (s.current_page_directory + 4 * upper virt) v
      (omega (arith, v.low, v.directory.aligned, v.directory.exists)),
  bit_and-one (entry_at s (upper virt)),
  absent,
  added,
)

-- On a machine with at most 1024 page frames, which are 4 MiB of memory, and on sound tables, mapping a page above the first 4 MiB to a frame returns: with a failure that changes
-- nothing, or with sound tables in which the addresses of the page go to the frame, all other addresses
-- of the 4 GiB go where they went before, and no frame in use was given up.
pub vmm_map_page_lem :
    (virt phys flags : ℕ) (s : Vmm)
    → IsSound s
    → 2 ^ 22 ≤ virt
    → virt < 2 ^ 32
    → phys % 4096 ≡ 0
    → phys < 2 ^ 32
    → flags < 4096
    → (vmm_map_page virt phys flags s ≡ done (false, s))
      ⊎ ((s' : Vmm) × (vmm_map_page virt phys flags s ≡ done (true, s'))
          × Keeps s s'
          × Maps virt phys s s')
vmm_map_page_lem virt phys flags s v above small aligned frame_small low =
    elim (ℕ_discrete (entry_at s (upper virt) % 2) 0) [
      | no present ↦
          let odd : IsPresent (entry_at s (upper virt)) = omega arith in
          let (s', did, keeps, maps) =
            set_entry_lem virt phys flags s v odd above small aligned frame_small low in
          inr (s', map_present virt phys flags s v odd ∙ did, keeps, maps)
      | yes absent ↦ elim (add_table_lem virt flags s v low absent) [
        | inl refused ↦ inl (map_absent virt phys flags s v absent refused)
        | inr (s1, added, k1, present, same) ↦
            let (s', did, k2, maps) =
              set_entry_lem virt phys flags s1 k1.sound present above small aligned frame_small
                low in
            inr (
              s',
              map_absent virt phys flags s v absent added ∙ did,
              record {
                sound = k2.sound;
                same_next = k2.same_next ∙ k1.same_next;
                in_use = λ addr u. k2.in_use addr (k1.in_use addr u);
              },
              record { here = maps.here; others = λ a bound ne. maps.others a bound ne ∙ same a },
            )
      ]
    ]
