-- ===== src/Mem/Copy.antt =====
-- What the copying and filling loops leave in memory.
use holyos.Base.{ℕ, zero, suc, ◌+◌, ◌*◌, ◌^◌, ◌<◌, ◌≤◌, ◌≡◌, ◌⊎◌, inl, refl, ◌∙◌, ap, arith}
use holyos.Mem.{RawMemory, store, store16, load16, memcpy, memset16}

pub memcpy-outside :
    (dest src size : ℕ) (mem : RawMemory) (q : ℕ)
    → (q < dest) ⊎ (dest + size ≤ q)
    → memcpy dest src size mem q ≡ mem q
unfolding memcpy
memcpy-outside dest src zero mem q out = refl
memcpy-outside dest src (suc size) mem q out =
    memcpy-outside (dest + 1) (src + 1) size (store mem dest (mem src)) q (ground arith)
    ∙ ground arith

-- `memcpy` to a place that does not overlap the source, or that lies below it, leaves at the destination
-- what the source held before, and the bytes outside the destination as they were.
pub memcpy_lem :
    (dest src size : ℕ) (mem : RawMemory)
    → (dest ≤ src) ⊎ (src + size ≤ dest)
    → ((i : ℕ) → i < size → memcpy dest src size mem (dest + i) ≡ mem (src + i))
      × ((q : ℕ) → (q < dest) ⊎ (dest + size ≤ q) → memcpy dest src size mem q ≡ mem q)
unfolding memcpy
memcpy_lem dest src size mem apart =
    (inside dest src size mem apart, memcpy-outside dest src size mem)
  where
    inside :
        (dest src size : ℕ) (mem : RawMemory)
        → (dest ≤ src) ⊎ (src + size ≤ dest)
        → (i : ℕ) → i < size
        → memcpy dest src size mem (dest + i) ≡ mem (src + i)
    inside dest src zero mem apart i small = absurd (omega arith)
    inside dest src (suc size) mem apart zero small =
        ap (λ q. memcpy (dest + 1) (src + 1) size (store mem dest (mem src)) q) {x = dest + 0}
          {y = dest} (omega arith)
        ∙ memcpy-outside (dest + 1) (src + 1) size (store mem dest (mem src)) dest
            (inl (omega arith))
        ∙ ground arith
    inside dest src (suc size) mem apart (suc i) small =
        ap (λ q. memcpy (dest + 1) (src + 1) size (store mem dest (mem src)) q) {x = dest + suc i}
          {y = dest + 1 + i} (omega arith)
        ∙ inside (dest + 1) (src + 1) size (store mem dest (mem src)) (ground arith) i (omega arith)
        ∙ ground arith

pub memset16-outside :
    (buf value size : ℕ) (mem : RawMemory) (q : ℕ)
    → (q < buf) ⊎ (buf + 2 * size ≤ q)
    → memset16 buf value size mem q ≡ mem q
unfolding memset16
memset16-outside buf value zero mem q out = refl
memset16-outside buf value (suc size) mem q out =
    memset16-outside (buf + 2) value size (store16 mem buf value) q (ground arith) ∙ ground arith

-- `memset16` fills every cell of its range with the value, and changes no byte outside.
pub memset16_lem :
    (buf value size : ℕ) (mem : RawMemory)
    → value < 2 ^ 16
    → ((i : ℕ) → i < size → load16 (memset16 buf value size mem) (buf + 2 * i) ≡ value)
      × ((q : ℕ) → (q < buf) ⊎ (buf + 2 * size ≤ q) → memset16 buf value size mem q ≡ mem q)
unfolding memset16
memset16_lem buf value size mem word = (inside buf size mem, memset16-outside buf value size mem)
  where
    inside :
        (buf size : ℕ) (mem : RawMemory) (i : ℕ)
        → i < size
        → load16 (memset16 buf value size mem) (buf + 2 * i) ≡ value
    inside buf zero mem i small = absurd (omega arith)
    inside buf (suc size) mem zero small =
        let filled = memset16 (buf + 2) value size (store16 mem buf value) in
        let low =
          memset16-outside (buf + 2) value size (store16 mem buf value) buf (inl (omega arith)) in
        let high =
          memset16-outside (buf + 2) value size (store16 mem buf value) (buf + 1)
            (inl (omega arith)) in
        ap (λ p. load16 filled p) {x = buf + 2 * 0} {y = buf} (omega arith)
        ∙ ground (arith, low, high)
    inside buf (suc size) mem (suc i) small =
        ap (λ p. load16 (memset16 (buf + 2) value size (store16 mem buf value)) p)
          {x = buf + 2 * suc i} {y = buf + 2 + 2 * i} (omega arith)
        ∙ inside (buf + 2) size (store16 mem buf value) i (omega arith)
