-- ===== src/Tests/Boot.antt =====
-- A driver's first steps, run on the model: the PSP commands that load the firmware, and a message
-- to the management channel.
use xdna1_npu_emulator.Prelude.{ℕ, ◌≡◌, refl, true, false, none, some, List, ◌++◌, u32_bytes}
use xdna1_npu_emulator.Regs.{
  bar_reg, bar_sram, bar_mbox, reg_pub_sec_intr, reg_scratch2, reg_scratch3, reg_scratch4,
  reg_scratch9, psp_cmd_validate, psp_cmd_start, psp_start_copy_fw, sram_mgmt_x2i_off,
  sram_mgmt_i2x_off, mbox_x2i_tail_off,
}
use xdna1_npu_emulator.Regs.Opcodes.{msg_op_get_protocol_version}
use xdna1_npu_emulator.Mem.{read_bytes, write_bytes, fill_bytes}
use xdna1_npu_emulator.State.{
  XdnaHostOps, XdnaNpu, xdna_log, touch, store, clear, xdna_sram_read32, xdna_sram_write32,
}
use xdna1_npu_emulator.Mert.Reply.{mert_reply}
use xdna1_npu_emulator.Mert.{dispatch, xdna_mert_handle}
use xdna1_npu_emulator.Mailbox.Channel.{
  xdna_mbox_channel_reset, reset_from, xdna_mbox_reset, chan_from_off,
}
use xdna1_npu_emulator.Mailbox.Send.{
  header_bytes, put_tombstone, put_message, notify, deliver, xdna_mbox_send,
}
use xdna1_npu_emulator.Mailbox.Process.{
  read_header, consume, take_message, inspect, round, process_loop, xdna_mbox_process,
}
use xdna1_npu_emulator.Mailbox.{write_chan_reg, xdna_mbox_reg_write}
use xdna1_npu_emulator.Firmware.{open_mgmt, publish_info, xdna_fw_boot}
use xdna1_npu_emulator.Psp.{
  read_image, psp_fetch_image, psp_validate, psp_start, psp_run, xdna_psp_kick,
}
use xdna1_npu_emulator.Device.{
  xdna_npu_reset, xdna_npu_new, reg_bar_write, word_write, write_words, xdna_npu_mmio_write_buf,
  xdna_npu_mmio_write,
}

-- A host with every callback, whose DMA always succeeds.
abbrev pub willing_host : XdnaHostOps
willing_host = record {
  dma_read = some (λ h a n. true);
  dma_read_phys = none;
  dma_write = some (λ h a bs. true);
  raise_irq = true;
  log = false;
}

unfoldable write32 : ℕ → ℕ → ℕ → XdnaNpu → XdnaNpu
write32 bar off v s = xdna_npu_mmio_write bar off v 4 s

unfoldable psp_command : ℕ → ℕ → ℕ → ℕ → XdnaNpu → XdnaNpu
unfolding write32
psp_command cmd arg0 arg1 arg2 s = write32 bar_reg reg_pub_sec_intr 1 (
    write32 bar_reg reg_pub_sec_intr 0 (
      write32 bar_reg reg_scratch9 arg2 (
        write32 bar_reg reg_scratch4 arg1
          (write32 bar_reg reg_scratch3 arg0 (write32 bar_reg reg_scratch2 cmd s)))))

abbrev booted : XdnaNpu
booted =
    psp_command psp_cmd_start psp_start_copy_fw 0 0
      (psp_command psp_cmd_validate 0 1 0x1000 (xdna_npu_new willing_host))

abbrev queries : List ℕ
queries =
    header_bytes
      (record { total_size = 4; sz_ver = 0x10004; id = 7; opcode = msg_op_get_protocol_version })
    ++ u32_bytes 0

abbrev answered : XdnaNpu
answered =
    write32 bar_mbox mbox_x2i_tail_off 20
      (xdna_npu_mmio_write_buf bar_sram sram_mgmt_x2i_off queries booted)

-- After the boot the firmware answers the query with version 5.7, in a reply of 12 bytes under the
-- id of the query.
answered_reply :
    read_bytes answered.sram sram_mgmt_i2x_off 28
    ≡ header_bytes
        (record { total_size = 12; sz_ver = 0x1000C; id = 7; opcode = msg_op_get_protocol_version })
      ++ u32_bytes 0
      ++ u32_bytes 5
      ++ u32_bytes 7
unfolding read_bytes write_bytes fill_bytes write32 xdna_npu_mmio_write xdna_npu_mmio_write_buf
    write_words word_write xdna_mbox_reg_write write_chan_reg chan_from_off xdna_mbox_process
    process_loop round inspect take_message consume read_header xdna_mert_handle dispatch mert_reply
    xdna_mbox_send deliver notify put_message put_tombstone store touch clear psp_command
    reg_bar_write xdna_psp_kick psp_run psp_start psp_validate psp_fetch_image read_image
    xdna_fw_boot publish_info open_mgmt xdna_sram_write32 xdna_sram_read32 xdna_mbox_channel_reset
    xdna_mbox_reset reset_from xdna_log xdna_npu_new xdna_npu_reset
answered_reply = refl
