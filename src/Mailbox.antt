-- ===== src/Mailbox.antt =====
-- src/xdna_mailbox.c: the ring-buffer mailbox, device side. The children hold the channels, the
-- sending and the receiving of messages; the write to a channel register is here.
pub mod Channel
pub mod Send
pub mod Process
pub mod Deliver
pub mod Outside
pub mod Others
pub mod Tombstone
pub mod Outgoing
pub mod Overrun
pub mod Drained
pub mod Incoming
pub mod Skipped
pub mod Management
pub mod Queue
pub mod Refused
use xdna1_npu_emulator.Prelude.{ℕ, ◌||◌, none, some, ◌==◌, if◌then◌else◌}
use xdna1_npu_emulator.Regs.{
  mbox_x2i_head_off, mbox_x2i_tail_off, mbox_i2x_head_off, mbox_intr_off, mbox_i2x_tail_off,
}
use xdna1_npu_emulator.State.{XdnaNpu, update, log_warn, xdna_log}
use xdna1_npu_emulator.Mailbox.Channel.{chan_from_off}
use xdna1_npu_emulator.Mailbox.Process.{xdna_mbox_process}

abbrev set_x2i_tail : ℕ → ℕ → XdnaNpu → XdnaNpu
set_x2i_tail idx val s = record s {
  chan = update s.chan idx (record (s.chan idx) { x2i_tail = val });
}

abbrev set_i2x_head : ℕ → ℕ → XdnaNpu → XdnaNpu
set_i2x_head idx val s = record s {
  chan = update s.chan idx (record (s.chan idx) { i2x_head = val });
}

abbrev set_intr : ℕ → ℕ → XdnaNpu → XdnaNpu
set_intr idx val s = record s { chan = update s.chan idx (record (s.chan idx) { intr = val }) }

unfoldable pub write_chan_reg : ℕ → ℕ → ℕ → XdnaNpu → XdnaNpu
write_chan_reg idx reg val s =
    if reg == mbox_x2i_tail_off
    then xdna_mbox_process (s.chan idx).index (set_x2i_tail idx val s)
    else if reg == mbox_i2x_head_off
    then set_i2x_head idx val s
    else if reg == mbox_intr_off
    then set_intr idx val s
    else if reg == mbox_x2i_head_off || reg == mbox_i2x_tail_off
    then xdna_log log_warn s
    else s

unfoldable pub xdna_mbox_reg_write : ℕ → ℕ → XdnaNpu → XdnaNpu
unfolding chan_from_off
xdna_mbox_reg_write off val s = elim (chan_from_off off) [
  | none ↦ s
  | some (idx, reg) ↦ write_chan_reg idx reg val s
]
