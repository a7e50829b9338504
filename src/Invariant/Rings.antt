-- ===== src/Invariant/Rings.antt =====
-- The rings of include/xdna/xdna_regs.h, src/xdna_fw.c and src/xdna_mert.c share no bytes.
use xdna1_npu_emulator.Prelude.{ℕ, ◌+◌, ◌≤◌, ◌⊎◌}

-- Two ranges of bytes, given by their starts and lengths, do not overlap.
abbrev pub Apart : ℕ → ℕ → ℕ → ℕ → Type 0
Apart a n b m = (a + n ≤ b) ⊎ (b + m ≤ a)
