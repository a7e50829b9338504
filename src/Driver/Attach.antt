-- ===== src/Driver/Attach.antt =====
-- tests/test_boot.c, `drv_get_mgmt_chann_info`: the driver finds the management channel through the
-- FW_ALIVE word.
pub mod Boot
use xdna1_npu_emulator.Prelude.{
  ℕ, ◌+◌, ◌-◌, ◌%◌, ◌^◌, Bool, true, false, not, List, ◌==◌, if◌then◌else◌, add32, u32_at,
}
use xdna1_npu_emulator.Regs.{
  mpnpu_aperture1_base, mpnpu_aperture2_base, bar_sram, sram_fw_alive_off, mgmt_mbox_magic,
}
use xdna1_npu_emulator.State.{XdnaNpu}
use xdna1_npu_emulator.Device.{xdna_npu_mmio_read_buf}
use xdna1_npu_emulator.Driver.{rd32, wr32}
use xdna1_npu_emulator.Driver.Receive.{Drv}

-- Device addresses as offsets into the SRAM and the MBOX BAR, in 32 bits.
abbrev pub sram_off : ℕ → ℕ
sram_off addr = (addr + 2 ^ 32 - mpnpu_aperture1_base) % 2 ^ 32

abbrev pub mbox_off : ℕ → ℕ
mbox_off addr = (addr + 2 ^ 32 - mpnpu_aperture2_base) % 2 ^ 32

-- The driver's fields from the bytes of the description.
unfoldable pub attach : List ℕ → Drv → Drv
attach info d = record d {
  x2i = record {
    rb_start = sram_off (u32_at info 8);
    rb_size = u32_at info 12;
    head_reg = mbox_off (u32_at info 4);
    tail_reg = mbox_off (u32_at info 0);
  };
  i2x = record {
    rb_start = sram_off (u32_at info 24);
    rb_size = u32_at info 28;
    head_reg = mbox_off (u32_at info 20);
    tail_reg = mbox_off (u32_at info 16);
  };
  msix_id = u32_at info 36;
  prot_major = u32_at info 40;
  prot_minor = u32_at info 44;
  intr_reg = add32 (mbox_off (u32_at info 20)) 4;
}

-- `true` stands for the return value 0, `false` for -1.
unfoldable pub drv_get_mgmt_chann_info : Drv → XdnaNpu → Bool × Drv × XdnaNpu
drv_get_mgmt_chann_info d s =
    let addr = rd32 bar_sram sram_fw_alive_off s in
    let info = xdna_npu_mmio_read_buf bar_sram (sram_off addr.0) 64 addr.1 in
    if addr.0 == 0
    then (false, d, addr.1)
    else if not (u32_at info.0 32 == mgmt_mbox_magic)
    then (false, d, info.1)
    else (true, attach info.0 d, wr32 bar_sram sram_fw_alive_off 0 info.1)
