-- ===== src/Mem.antt =====
-- lib/string.c, the functions on raw memory. `RawMemory` gives the byte at an address.
pub mod Copy
use holyos.Base.{ℕ, zero, suc, ◌+◌, ◌-◌, ◌*◌, ◌/◌, ◌%◌, ◌^◌, ◌==◌, if◌then◌else◌, u8}

abbrev pub RawMemory : Type 0
RawMemory = ℕ → ℕ

-- A store of one byte.
abbrev pub store : RawMemory → ℕ → ℕ → RawMemory
store mem p v q = if p == q then v else mem q

-- A store and a load of a `uint16_t`, its low byte first.
abbrev pub store16 : RawMemory → ℕ → ℕ → RawMemory
store16 mem p v = store (store mem p (v % 256)) (p + 1) (v / 256 % 256)

abbrev pub load16 : RawMemory → ℕ → ℕ
load16 mem p = mem p + 256 * mem (p + 1)

unfoldable pub memcpy : ℕ → ℕ → ℕ → RawMemory → RawMemory
memcpy dest src zero mem = mem
memcpy dest src (suc size) mem = memcpy (dest + 1) (src + 1) size (store mem dest (mem src))

unfoldable pub memset : ℕ → ℕ → ℕ → RawMemory → RawMemory
memset buf value zero mem = mem
memset buf value (suc size) mem = memset (buf + 1) value size (store mem buf (u8 value))

unfoldable pub memset16 : ℕ → ℕ → ℕ → RawMemory → RawMemory
memset16 buf value zero mem = mem
memset16 buf value (suc size) mem = memset16 (buf + 2) value size (store16 mem buf value)
