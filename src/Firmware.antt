-- ===== src/Firmware.antt =====
-- src/xdna_fw.c: starting and stopping the management firmware.
pub mod Boot
use xdna1_npu_emulator.Prelude.{
  ℕ, zero, suc, ◌+◌, bit_and, bit_or, true, false, List, ◌++◌, replicate, u32_bytes,
}
use xdna1_npu_emulator.Regs.{
  sram_fw_alive_off, sram_mgmt_info_off, sram_mgmt_x2i_off, sram_mgmt_i2x_off, sram_mgmt_rb_size,
  mbox_x2i_head_off, mbox_x2i_tail_off, mbox_i2x_head_off, mbox_i2x_tail_off, mgmt_mbox_magic,
  mgmt_prot_major, mgmt_prot_minor, npu1_hwctx_limit, mbox_chan_base,
}
use xdna1_npu_emulator.State.{
  XdnaContext, XdnaNpu, update, log_info, xdna_log, store, clear, xdna_sram_write32,
  xdna_sram_dev_addr, xdna_mbox_dev_addr,
}
use xdna1_npu_emulator.Mailbox.Channel.{xdna_mbox_channel_reset, xdna_mbox_reset}

-- `XdnaMgmtMboxInfo`, but for its reserved words.
pub record XdnaMgmtMboxInfo : Type 0 where
  pub x2i_tail : ℕ
  pub x2i_head : ℕ
  pub x2i_buf : ℕ
  pub x2i_buf_sz : ℕ
  pub i2x_tail : ℕ
  pub i2x_head : ℕ
  pub i2x_buf : ℕ
  pub i2x_buf_sz : ℕ
  pub magic : ℕ
  pub msi_id : ℕ
  pub prot_major : ℕ
  pub prot_minor : ℕ

-- The 64 bytes of the struct; the last four words are reserved and zero.
abbrev pub info_bytes : XdnaMgmtMboxInfo → List ℕ
info_bytes i =
    u32_bytes i.x2i_tail
    ++ u32_bytes i.x2i_head
    ++ u32_bytes i.x2i_buf
    ++ u32_bytes i.x2i_buf_sz
    ++ u32_bytes i.i2x_tail
    ++ u32_bytes i.i2x_head
    ++ u32_bytes i.i2x_buf
    ++ u32_bytes i.i2x_buf_sz
    ++ u32_bytes i.magic
    ++ u32_bytes i.msi_id
    ++ u32_bytes i.prot_major
    ++ u32_bytes i.prot_minor
    ++ replicate 16 0

abbrev pub mgmt_msix_vector : ℕ
mgmt_msix_vector = 0

-- The description of the management channel that `xdna_fw_boot` fills in.
abbrev pub mgmt_info : XdnaMgmtMboxInfo
mgmt_info = record {
  x2i_tail = xdna_mbox_dev_addr (mbox_chan_base 0 + mbox_x2i_tail_off);
  x2i_head = xdna_mbox_dev_addr (mbox_chan_base 0 + mbox_x2i_head_off);
  x2i_buf = xdna_sram_dev_addr sram_mgmt_x2i_off;
  x2i_buf_sz = sram_mgmt_rb_size;
  i2x_tail = xdna_mbox_dev_addr (mbox_chan_base 0 + mbox_i2x_tail_off);
  i2x_head = xdna_mbox_dev_addr (mbox_chan_base 0 + mbox_i2x_head_off);
  i2x_buf = xdna_sram_dev_addr sram_mgmt_i2x_off;
  i2x_buf_sz = sram_mgmt_rb_size;
  magic = mgmt_mbox_magic;
  msi_id = mgmt_msix_vector;
  prot_major = mgmt_prot_major;
  prot_minor = mgmt_prot_minor;
}

-- The management channel is reset and given its rings.
unfoldable pub open_mgmt : XdnaNpu → XdnaNpu
open_mgmt s =
    let s' = xdna_mbox_channel_reset 0 s in
    record s' {
      chan = update s'.chan 0 (record (s'.chan 0) {
        active = true;
        index = mgmt_msix_vector;
        x2i_buf = sram_mgmt_x2i_off;
        x2i_size = sram_mgmt_rb_size;
        i2x_buf = sram_mgmt_i2x_off;
        i2x_size = sram_mgmt_rb_size;
      });
    }

-- The rings are cleared, the description is written, and FW_ALIVE is pointed at it.
unfoldable pub publish_info : XdnaNpu → XdnaNpu
publish_info s = xdna_sram_write32 sram_fw_alive_off (xdna_sram_dev_addr sram_mgmt_info_off) (
    store sram_mgmt_info_off (info_bytes mgmt_info)
      (clear sram_mgmt_i2x_off sram_mgmt_rb_size (clear sram_mgmt_x2i_off sram_mgmt_rb_size s)))

abbrev pub set_alive : XdnaNpu → XdnaNpu
set_alive s = record s { fw_alive = true; fw_suspended = false; pwaitmode = bit_or s.pwaitmode 1 }

unfoldable pub xdna_fw_boot : XdnaNpu → XdnaNpu
xdna_fw_boot s = xdna_log log_info (set_alive (publish_info (open_mgmt s)))

-- The loop over the contexts: `n` of them from `i` on are marked invalid.
unfoldable pub invalidate_from : ℕ → ℕ → (ℕ → XdnaContext) → ℕ → XdnaContext
invalidate_from i zero ctx = ctx
invalidate_from i (suc n) ctx =
    invalidate_from (suc i) n (update ctx i (record (ctx i) { valid = false }))

abbrev pub drop_contexts : XdnaNpu → XdnaNpu
drop_contexts s = record s {
  ctx = invalidate_from 0 npu1_hwctx_limit s.ctx;
  col_used = 0;
  stats = record s.stats { active_contexts = 0 };
  async_registered = false;
}

abbrev pub set_dead : XdnaNpu → XdnaNpu
set_dead s = record s { fw_alive = false; pwaitmode = bit_and s.pwaitmode 0xFFFFFFFE }

unfoldable pub xdna_fw_shutdown : XdnaNpu → XdnaNpu
xdna_fw_shutdown s =
    xdna_log log_info
      (set_dead (xdna_sram_write32 sram_fw_alive_off 0 (xdna_mbox_reset (drop_contexts s))))
