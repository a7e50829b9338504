-- ===== src/Driver/Registers.antt =====
-- tests/test_boot.c: a 32-bit access of the driver is one access to a register.
use xdna1_npu_emulator.Prelude.{ℕ, ◌^◌, ◌<◌, ◌≡◌, refl, arith, le_value-u32_bytes}
use xdna1_npu_emulator.Regs.{
  bar_reg, reg_pub_sec_intr, reg_scratch2, reg_scratch3, reg_scratch4, reg_scratch9, psp_notify_val,
}
use xdna1_npu_emulator.State.{XdnaNpu, update}
use xdna1_npu_emulator.Device.{
  reg_bar_read, reg_bar_write, word_read, word_write, read_words, xdna_npu_mmio_read_buf,
  write_words, xdna_npu_mmio_write_buf, xdna_npu_mmio_read, xdna_npu_mmio_write,
}
use xdna1_npu_emulator.Psp.{xdna_psp_kick}
use xdna1_npu_emulator.Driver.{rd32, wr32, psp_arg2, psp_set_cmd}

pub wr32-reg : (off v : ℕ) (s : XdnaNpu) → v < 2 ^ 32 → wr32 bar_reg off v s ≡ reg_bar_write off v s
unfolding wr32 xdna_npu_mmio_write xdna_npu_mmio_write_buf write_words word_write
wr32-reg off v s h = rw (le_value-u32_bytes v h) refl

pub rd32-reg :
    (off : ℕ) (s : XdnaNpu)
    → (reg_bar_read off s).0 < 2 ^ 32
    → rd32 bar_reg off s ≡ reg_bar_read off s
unfolding rd32 xdna_npu_mmio_read xdna_npu_mmio_read_buf read_words word_read
rd32-reg off s h = λ i. (le_value-u32_bytes (reg_bar_read off s).0 h i, (reg_bar_read off s).1)

-- The device when the PSP is kicked, with the command in its registers.
abbrev pub psp_loaded : ℕ → ℕ → ℕ → ℕ → XdnaNpu → XdnaNpu
psp_loaded cmd arg0 arg1 arg2 s = record s {
  scratch = update (update (update (update s.scratch 2 cmd) 3 arg0) 4 arg1) 9 (psp_arg2 cmd arg2);
  sec_intr = psp_notify_val;
}

pub psp_set_cmd-kicks :
    (cmd arg0 arg1 arg2 : ℕ) (s : XdnaNpu)
    → cmd < 2 ^ 32
    → arg0 < 2 ^ 32
    → arg1 < 2 ^ 32
    → psp_arg2 cmd arg2 < 2 ^ 32
    → psp_set_cmd cmd arg0 arg1 arg2 s ≡ xdna_psp_kick (psp_loaded cmd arg0 arg1 arg2 s)
unfolding psp_set_cmd reg_bar_write
psp_set_cmd-kicks cmd arg0 arg1 arg2 s a b c d = rw (wr32-reg reg_scratch2 cmd s a) (
    rw
      (
        wr32-reg reg_scratch3 arg0 _ b,
        wr32-reg reg_scratch4 arg1 _ c,
        wr32-reg reg_scratch9 (psp_arg2 cmd arg2) _ d,
        wr32-reg reg_pub_sec_intr 0 _ (omega arith),
        wr32-reg reg_pub_sec_intr psp_notify_val _ (omega arith),
      )
      refl)
