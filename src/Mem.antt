-- ===== src/Mem.antt =====
-- The SRAM BAR as plain memory: the accesses of src/xdna_internal.h and the `memcpy` and `memset`
-- calls on `npu->sram`. A memory gives the byte at each offset.
pub mod Laws
use xdna1_npu_emulator.Prelude.{
  ℕ, zero, suc, ◌+◌, ◌-◌, Bool, ◌&&◌, List, [], ◌∷◌, ltb, leb, if◌then◌else◌, length, get_or,
}

abbrev pub Mem : Type 0
Mem = ℕ → ℕ

-- The `n` bytes from `off` on.
unfoldable pub read_bytes : Mem → ℕ → ℕ → List ℕ
read_bytes m off zero = []
read_bytes m off (suc n) = m off ∷ read_bytes m (off + 1) n

abbrev pub in_range : ℕ → ℕ → ℕ → Bool
in_range off len a = leb off a && ltb a (off + len)

unfoldable pub write_bytes : Mem → ℕ → List ℕ → Mem
write_bytes m off bs a = if in_range off (length bs) a then get_or bs (a - off) 0 else m a

unfoldable pub fill_bytes : Mem → ℕ → ℕ → ℕ → Mem
fill_bytes m off v len a = if in_range off len a then v else m a
