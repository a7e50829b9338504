-- ===== src/Device/Readback.antt =====
-- src/xdna_device.c: what is written through a BAR is read back.
use xdna1_npu_emulator.Prelude.{
  ℕ, ◌+◌, ◌^◌, ◌≤◌, ◌<◌, ◌≡◌, refl, ◌⊎◌, inl, inr, List, arith, ltb, ltb→lt, ltb→le, le→leb,
  Bool-cases, length, replicate,
}
use xdna1_npu_emulator.Regs.{
  bar_reg, bar_sram, bar_sram_size, reg_pwaitmode, reg_scratch2, reg_scratch3, reg_scratch4,
  reg_scratch5, reg_scratch6, reg_scratch7, reg_scratch9,
}
use xdna1_npu_emulator.State.{XdnaNpu, touch, store}
use xdna1_npu_emulator.Mem.Laws.{read_bytes-write_bytes}
use xdna1_npu_emulator.Device.{
  reg_bar_read, reg_bar_write, word_read, word_write, read_words, xdna_npu_mmio_read_buf,
  write_words, xdna_npu_mmio_write_buf, xdna_npu_mmio_read, xdna_npu_mmio_write,
}

-- The registers that only hold a value.
pub data PlainReg : ℕ → Type 0 where
  pwaitmode : PlainReg reg_pwaitmode
  scratch2 : PlainReg reg_scratch2
  scratch3 : PlainReg reg_scratch3
  scratch4 : PlainReg reg_scratch4
  scratch5 : PlainReg reg_scratch5
  scratch6 : PlainReg reg_scratch6
  scratch7 : PlainReg reg_scratch7
  scratch9 : PlainReg reg_scratch9

-- A 32-bit value that is written to a register of the REG BAR that only holds a value is read back.
pub reg_reads_back :
    (off v : ℕ) (s : XdnaNpu)
    → PlainReg off
    → v < 2 ^ 32
    → (xdna_npu_mmio_read bar_reg off 4 (xdna_npu_mmio_write bar_reg off v 4 s)).0 ≡ v
unfolding xdna_npu_mmio_read xdna_npu_mmio_write xdna_npu_mmio_read_buf xdna_npu_mmio_write_buf
    write_words read_words word_read word_write reg_bar_read reg_bar_write
reg_reads_back off v s pwaitmode h = omega arith
reg_reads_back off v s scratch2 h = omega arith
reg_reads_back off v s scratch3 h = omega arith
reg_reads_back off v s scratch4 h = omega arith
reg_reads_back off v s scratch5 h = omega arith
reg_reads_back off v s scratch6 h = omega arith
reg_reads_back off v s scratch7 h = omega arith
reg_reads_back off v s scratch9 h = omega arith

-- Bytes that are written into the SRAM BAR are read back if they lie in it, and reading them leaves
-- the device alone; a write that would leave the BAR changes nothing, and its range reads as zeros.
pub sram_reads_back :
    (off : ℕ) (bs : List ℕ) (s : XdnaNpu)
    → let t = xdna_npu_mmio_write_buf bar_sram off bs s in
      let r = xdna_npu_mmio_read_buf bar_sram off (length bs) t in
      ((off + length bs ≤ bar_sram_size) × (r ≡ (bs, t)))
      ⊎ ((bar_sram_size < off + length bs) × (t ≡ s) × (r ≡ (replicate (length bs) 0, s)))
unfolding xdna_npu_mmio_read_buf xdna_npu_mmio_write_buf store touch
sram_reads_back off bs s = elim (Bool-cases (ltb bar_sram_size (off + length bs))) [
  | inl e ↦ inr (ltb→lt bar_sram_size (off + length bs) e, rw e refl, rw e refl)
  | inr e ↦
      let h : off + length bs ≤ bar_sram_size = ltb→le bar_sram_size (off + length bs) e in
      inl (
        h,
        rw (e, le→leb (off + length bs) bar_sram_size h, read_bytes-write_bytes s.sram off bs) refl,
      )
]
