-- ===== src/Firmware/Boot.antt =====
-- src/xdna_fw.c, `xdna_fw_boot`: what the driver finds after the firmware has started.
use xdna1_npu_emulator.Prelude.{
  ℕ, ◌+◌, ◌≤◌, ◌<◌, ◌≡◌, refl, ap, ◌∙◌, inl, true, arith, if_keeps, le_value, u32_bytes,
}
use xdna1_npu_emulator.Regs.{
  sram_fw_alive_off, sram_mgmt_info_off, sram_mgmt_x2i_off, sram_mgmt_i2x_off, sram_mgmt_rb_size,
}
use xdna1_npu_emulator.Mem.{Mem, read_bytes, write_bytes, fill_bytes}
use xdna1_npu_emulator.Mem.Laws.{read_bytes-write_bytes, read_bytes-write_bytes_disjoint}
use xdna1_npu_emulator.State.{
  XdnaChannel, XdnaNpu, xdna_log, store, clear, xdna_sram_write32, xdna_sram_dev_addr,
}
use xdna1_npu_emulator.Mailbox.Channel.{channel_zero, xdna_mbox_channel_reset}
use xdna1_npu_emulator.Firmware.{info_bytes, mgmt_info, open_mgmt, publish_info, xdna_fw_boot}

-- The memory that a boot leaves.
unfoldable published_sram : Mem → Mem
published_sram m =
    write_bytes
      (write_bytes
        (fill_bytes (fill_bytes m sram_mgmt_x2i_off 0 sram_mgmt_rb_size) sram_mgmt_i2x_off 0
          sram_mgmt_rb_size)
        sram_mgmt_info_off (info_bytes mgmt_info))
      sram_fw_alive_off (u32_bytes (xdna_sram_dev_addr sram_mgmt_info_off))

boot_sram : (s : XdnaNpu) → (xdna_fw_boot s).sram ≡ published_sram s.sram
unfolding xdna_fw_boot publish_info open_mgmt xdna_sram_write32 store clear xdna_mbox_channel_reset
    xdna_log published_sram
boot_sram s = if_keeps (λ (t : XdnaNpu). t.sram ≡ published_sram s.sram) s.ops.log refl refl

-- Channel 0 after a boot.
abbrev pub mgmt_channel : XdnaChannel
mgmt_channel = record channel_zero {
  active = true;
  x2i_buf = sram_mgmt_x2i_off;
  x2i_size = sram_mgmt_rb_size;
  i2x_buf = sram_mgmt_i2x_off;
  i2x_size = sram_mgmt_rb_size;
}

pub boot_chan : (s : XdnaNpu) → (xdna_fw_boot s).chan 0 ≡ mgmt_channel
unfolding xdna_fw_boot publish_info open_mgmt xdna_sram_write32 store clear xdna_mbox_channel_reset
    xdna_log
boot_chan s = if_keeps (λ (t : XdnaNpu). t.chan 0 ≡ mgmt_channel) s.ops.log refl refl

-- What a driver reads: the pointer at FW_ALIVE, the description that it points to, the rings that
-- are described, which are those of channel 0, and their content.
pub record Published (t : XdnaNpu) : Type 0 where
  pub pointer :
      le_value (read_bytes t.sram sram_fw_alive_off 4) ≡ xdna_sram_dev_addr sram_mgmt_info_off
  pub info : read_bytes t.sram sram_mgmt_info_off 64 ≡ info_bytes mgmt_info
  pub x2i_buf : mgmt_info.x2i_buf ≡ xdna_sram_dev_addr (t.chan 0).x2i_buf
  pub x2i_size : mgmt_info.x2i_buf_sz ≡ (t.chan 0).x2i_size
  pub i2x_buf : mgmt_info.i2x_buf ≡ xdna_sram_dev_addr (t.chan 0).i2x_buf
  pub i2x_size : mgmt_info.i2x_buf_sz ≡ (t.chan 0).i2x_size
  pub active : (t.chan 0).active ≡ true
  pub x2i_empty : ((t.chan 0).x2i_head ≡ 0) × ((t.chan 0).x2i_tail ≡ 0)
  pub i2x_empty : ((t.chan 0).i2x_head ≡ 0) × ((t.chan 0).i2x_tail ≡ 0)
  pub cleared :
      (a : ℕ) → sram_mgmt_x2i_off ≤ a → a < sram_mgmt_i2x_off + sram_mgmt_rb_size → t.sram a ≡ 0

cleared_at :
    (m : Mem) (a : ℕ)
    → sram_mgmt_x2i_off ≤ a
    → a < sram_mgmt_i2x_off + sram_mgmt_rb_size
    → published_sram m a ≡ 0
unfolding published_sram write_bytes fill_bytes
cleared_at m a h k = ground arith

info_at : (m : Mem) → read_bytes (published_sram m) sram_mgmt_info_off 64 ≡ info_bytes mgmt_info
unfolding published_sram
info_at m =
    read_bytes-write_bytes_disjoint _ sram_fw_alive_off _ sram_mgmt_info_off 64 (inl (omega arith))
    ∙ read_bytes-write_bytes _ sram_mgmt_info_off (info_bytes mgmt_info)

pointer_at :
    (m : Mem)
    → le_value (read_bytes (published_sram m) sram_fw_alive_off 4)
      ≡ xdna_sram_dev_addr sram_mgmt_info_off
unfolding published_sram
pointer_at m =
    ap le_value (
      read_bytes-write_bytes _ sram_fw_alive_off
        (u32_bytes (xdna_sram_dev_addr sram_mgmt_info_off)))

-- After a boot the driver finds FW_ALIVE pointing at the description of the management channel, the
-- description with the addresses and the sizes of the rings that channel 0 uses, the channel open,
-- and both rings empty and cleared.
pub boot_publishes : (s : XdnaNpu) → Published (xdna_fw_boot s)
boot_publishes s = record {
  pointer = rw (boot_sram s) (pointer_at s.sram);
  info = rw (boot_sram s) (info_at s.sram);
  x2i_buf = rw (boot_chan s) refl;
  x2i_size = rw (boot_chan s) refl;
  i2x_buf = rw (boot_chan s) refl;
  i2x_size = rw (boot_chan s) refl;
  active = rw (boot_chan s) refl;
  x2i_empty = rw (boot_chan s) (refl, refl);
  i2x_empty = rw (boot_chan s) (refl, refl);
  cleared = λ a h k. rw (boot_sram s) (cleared_at s.sram a h k);
}
