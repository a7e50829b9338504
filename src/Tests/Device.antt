-- ===== src/Tests/Device.antt =====
-- Results on the device as a whole, at concrete accesses.
use xdna1_npu_emulator.Prelude.{
  ℕ, ◌+◌, ◌≤◌, ◌<◌, ◌≡◌, ◌⊎◌, false, List, [], ◌∷◌, ◌++◌, arith, replicate, u32_bytes,
}
use xdna1_npu_emulator.Regs.{
  bar_reg, bar_sram, bar_mbox, bar_sram_size, reg_pub_sec_intr, reg_scratch2, reg_scratch3,
  reg_scratch4, reg_scratch5, reg_scratch9, psp_cmd_validate, psp_cmd_start, psp_start_copy_fw,
  sram_mgmt_x2i_off, sram_mgmt_i2x_off, mbox_x2i_tail_off, mbox_i2x_head_off,
}
use xdna1_npu_emulator.State.{XdnaNpu}
use xdna1_npu_emulator.Device.{
  xdna_npu_new, xdna_npu_mmio_read_buf, xdna_npu_mmio_write_buf, xdna_npu_mmio_read,
  xdna_npu_mmio_write,
}
use xdna1_npu_emulator.Invariant.{Inv}
use xdna1_npu_emulator.Invariant.Reach.{Access, get, put, run, run_new-Inv, run_new-safe}
use xdna1_npu_emulator.Tests.Boot.{willing_host}
use xdna1_npu_emulator.Tests.States.{fresh, four_bytes}
use xdna1_npu_emulator.Device.Readback.{PlainReg, reg_reads_back, sram_reads_back}

-- The PSP commands that load and start the firmware, a read position, and a query for the protocol
-- version, as accesses to the BARs.
abbrev psp_accesses : ℕ → ℕ → ℕ → ℕ → List Access
psp_accesses cmd arg0 arg1 arg2 =
    put bar_reg reg_scratch2 (u32_bytes cmd)
    ∷ put bar_reg reg_scratch3 (u32_bytes arg0)
    ∷ put bar_reg reg_scratch4 (u32_bytes arg1)
    ∷ put bar_reg reg_scratch9 (u32_bytes arg2)
    ∷ put bar_reg reg_pub_sec_intr (u32_bytes 0)
    ∷ put bar_reg reg_pub_sec_intr (u32_bytes 1)
    ∷ []

abbrev session : List Access
session =
    psp_accesses psp_cmd_validate 0 1 0x1000
    ++ psp_accesses psp_cmd_start psp_start_copy_fw 0 0
    ++ (put bar_mbox mbox_i2x_head_off (u32_bytes 0)
        ∷ put bar_sram sram_mgmt_x2i_off
            (u32_bytes 4 ++ u32_bytes 0x10004 ++ u32_bytes 7 ++ u32_bytes 0x301 ++ u32_bytes 0)
        ∷ put bar_mbox mbox_x2i_tail_off (u32_bytes 20)
        ∷ get bar_sram sram_mgmt_i2x_off 28
        ∷ [])

run_new-Inv_example : Inv (run session (xdna_npu_new willing_host))
run_new-Inv_example = run_new-Inv willing_host session

run_new-safe_example : (run session (xdna_npu_new willing_host)).fault ≡ false
run_new-safe_example = run_new-safe willing_host session (ground arith)

-- The firmware is started and asked for a context of three columns.
abbrev creation : List Access
creation =
    psp_accesses psp_cmd_validate 0 1 0x1000
    ++ psp_accesses psp_cmd_start psp_start_copy_fw 0 0
    ++ (put bar_sram sram_mgmt_x2i_off (
          u32_bytes 28
          ++ u32_bytes 0x1001C
          ++ u32_bytes 9
          ++ u32_bytes 2
          ++ u32_bytes 0
          ++ (1 ∷ 3 ∷ 0 ∷ 0 ∷ 1 ∷ 0 ∷ 77 ∷ 0 ∷ [])
          ++ replicate 16 0)
        ∷ put bar_mbox mbox_x2i_tail_off (u32_bytes 44)
        ∷ [])

-- With the context, channel 1 is active besides the management channel.
abbrev created : XdnaNpu
created = run creation (xdna_npu_new willing_host)

reg_reads_back_example :
    (xdna_npu_mmio_read bar_reg reg_scratch5 4
      (xdna_npu_mmio_write bar_reg reg_scratch5 3 4 fresh)).0
    ≡ 3
reg_reads_back_example = reg_reads_back reg_scratch5 3 fresh PlainReg.scratch5 (omega arith)

sram_reads_back_example :
    let t = xdna_npu_mmio_write_buf bar_sram 0x24000 four_bytes fresh in
    let r = xdna_npu_mmio_read_buf bar_sram 0x24000 4 t in
    ((0x24000 + 4 ≤ bar_sram_size) × (r ≡ (four_bytes, t)))
    ⊎ ((bar_sram_size < 0x24000 + 4) × (t ≡ fresh) × (r ≡ (replicate 4 0, fresh)))
sram_reads_back_example = sram_reads_back 0x24000 four_bytes fresh
