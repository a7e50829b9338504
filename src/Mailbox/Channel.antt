-- ===== src/Mailbox/Channel.antt =====
-- src/xdna_mailbox.c: resetting the channels, and reading the channel registers.
use xdna1_npu_emulator.Prelude.{
  ℕ, zero, suc, ◌/◌, ◌%◌, false, Option, none, some, leb, ◌==◌, if◌then◌else◌,
}
use xdna1_npu_emulator.Regs.{
  mbox_chan_stride, mbox_x2i_head_off, mbox_x2i_tail_off, mbox_i2x_head_off, mbox_intr_off,
  mbox_i2x_tail_off,
}
use xdna1_npu_emulator.State.{XdnaChannel, XdnaNpu, max_channels, update}

abbrev pub channel_zero : XdnaChannel
channel_zero = record {
  active = false;
  index = 0;
  x2i_head = 0;
  x2i_tail = 0;
  i2x_head = 0;
  i2x_tail = 0;
  intr = 0;
  x2i_buf = 0;
  x2i_size = 0;
  i2x_buf = 0;
  i2x_size = 0;
}

unfoldable pub xdna_mbox_channel_reset : ℕ → XdnaNpu → XdnaNpu
xdna_mbox_channel_reset idx s =
    if leb max_channels idx
    then s
    else record s { chan = update s.chan idx (record channel_zero { index = idx }) }

-- The loop of `xdna_mbox_reset`: `n` channels from `i` on.
unfoldable pub reset_from : ℕ → ℕ → XdnaNpu → XdnaNpu
reset_from i zero s = s
reset_from i (suc n) s = reset_from (suc i) n (xdna_mbox_channel_reset i s)

unfoldable pub xdna_mbox_reset : XdnaNpu → XdnaNpu
xdna_mbox_reset s = reset_from 0 max_channels s

-- The channel and the register that an offset into the MBOX BAR names.
unfoldable pub chan_from_off : ℕ → Option (ℕ × ℕ)
chan_from_off off =
    let idx = off / mbox_chan_stride in
    if leb max_channels idx then none else some (idx, off % mbox_chan_stride)

chan_reg : XdnaChannel → ℕ → ℕ
chan_reg ch reg =
    if reg == mbox_x2i_head_off
    then ch.x2i_head
    else if reg == mbox_x2i_tail_off
    then ch.x2i_tail
    else if reg == mbox_i2x_head_off
    then ch.i2x_head
    else if reg == mbox_intr_off
    then ch.intr
    else if reg == mbox_i2x_tail_off
    then ch.i2x_tail
    else 0

unfoldable pub xdna_mbox_reg_read : ℕ → XdnaNpu → ℕ
unfolding chan_from_off chan_reg
xdna_mbox_reg_read off s = elim (chan_from_off off) [
  | none ↦ 0
  | some (idx, reg) ↦ chan_reg (s.chan idx) reg
]
