-- ===== src/Driver/Receive/Access.antt =====
-- tests/test_boot.c against src/xdna_device.c: the accesses of the driver to a ring.
use xdna1_npu_emulator.Prelude.{
  ℕ, ◌+◌, ◌/◌, ◌%◌, ◌^◌, ◌≤◌, ◌<◌, ◌≡◌, refl, ap, ◌∙◌, some, arith, le→ltb, lt→leb, le_value,
  u32_bytes, le_value-u32_bytes,
}
use xdna1_npu_emulator.Regs.{
  bar_sram, bar_mbox, bar_sram_size, mbox_chan_stride, mbox_i2x_head_off, mbox_intr_off,
  mbox_i2x_tail_off, mbox_chan_base,
}
use xdna1_npu_emulator.Mem.{read_bytes}
use xdna1_npu_emulator.State.{XdnaChannel, XdnaNpu, max_channels}
use xdna1_npu_emulator.Device.{
  word_read, word_write, read_words, xdna_npu_mmio_read_buf, write_words, xdna_npu_mmio_write_buf,
  xdna_npu_mmio_read, xdna_npu_mmio_write,
}
use xdna1_npu_emulator.Mailbox.Channel.{chan_from_off, xdna_mbox_reg_read}
use xdna1_npu_emulator.Mailbox.{write_chan_reg, xdna_mbox_reg_write}
use xdna1_npu_emulator.Invariant.Basic.{touch_in}
use xdna1_npu_emulator.Driver.{rd32, wr32}
use xdna1_npu_emulator.Driver.Receive.{Drv}

-- The driver knows the outgoing ring of channel `i`, and its position is the one in the register.
pub record Attached (i : ℕ) (c : XdnaChannel) (d : Drv) : Type 0 where
  pub rb_start : d.i2x.rb_start ≡ c.i2x_buf
  pub rb_size : d.i2x.rb_size ≡ c.i2x_size
  pub head_reg : d.i2x.head_reg ≡ mbox_chan_base i + mbox_i2x_head_off
  pub tail_reg : d.i2x.tail_reg ≡ mbox_chan_base i + mbox_i2x_tail_off
  pub intr_reg : d.intr_reg ≡ mbox_chan_base i + mbox_intr_off
  pub position : d.i2x_head ≡ c.i2x_head

pub sram_read :
    (off len : ℕ) (s : XdnaNpu)
    → off + len ≤ bar_sram_size
    → xdna_npu_mmio_read_buf bar_sram off len s ≡ (read_bytes s.sram off len, s)
unfolding xdna_npu_mmio_read_buf
sram_read off len s h = rw (le→ltb bar_sram_size (off + len) h, touch_in off len s h) refl

-- An offset into the MBOX BAR names a register of a channel.
chan_of_off : (i reg : ℕ) → reg < mbox_chan_stride → (mbox_chan_base i + reg) / mbox_chan_stride ≡ i
chan_of_off i reg l = omega arith

reg_of_off :
    (i reg : ℕ) → reg < mbox_chan_stride → (mbox_chan_base i + reg) % mbox_chan_stride ≡ reg
reg_of_off i reg l = omega arith

pub reg_of_chan :
    (i reg : ℕ)
    → i < max_channels
    → reg < mbox_chan_stride
    → chan_from_off (mbox_chan_base i + reg) ≡ some (i, reg)
unfolding chan_from_off
reg_of_chan i reg h l = rw (chan_of_off i reg l, reg_of_off i reg l, lt→leb max_channels i h) refl

reg_write-chan :
    (i reg v : ℕ) (s : XdnaNpu)
    → i < max_channels
    → reg < mbox_chan_stride
    → xdna_mbox_reg_write (mbox_chan_base i + reg) v s ≡ write_chan_reg i reg v s
unfolding xdna_mbox_reg_write
reg_write-chan i reg v s h l = rw (xdna_mbox_reg_write, reg_of_chan i reg h l) refl

pub mbox_write :
    (i reg v : ℕ) (s : XdnaNpu)
    → i < max_channels
    → reg < mbox_chan_stride
    → v < 2 ^ 32
    → wr32 bar_mbox (mbox_chan_base i + reg) v s ≡ write_chan_reg i reg v s
unfolding wr32 xdna_npu_mmio_write xdna_npu_mmio_write_buf write_words word_write
mbox_write i reg v s h l w =
    ap (λ (x : ℕ). xdna_mbox_reg_write (mbox_chan_base i + reg) x s) (le_value-u32_bytes v w)
    ∙ reg_write-chan i reg v s h l

tail_reg_read :
    (i : ℕ) (s : XdnaNpu)
    → i < max_channels
    → xdna_mbox_reg_read (mbox_chan_base i + mbox_i2x_tail_off) s ≡ (s.chan i).i2x_tail
unfolding xdna_mbox_reg_read
tail_reg_read i s h = rw (xdna_mbox_reg_read, reg_of_chan i mbox_i2x_tail_off h (omega arith)) refl

pub tail_read :
    (i : ℕ) (s : XdnaNpu)
    → i < max_channels
    → (s.chan i).i2x_tail < 2 ^ 32
    → rd32 bar_mbox (mbox_chan_base i + mbox_i2x_tail_off) s ≡ ((s.chan i).i2x_tail, s)
unfolding rd32 xdna_npu_mmio_read xdna_npu_mmio_read_buf read_words word_read
tail_read i s h w = λ k. (
  (ap (λ (v : ℕ). le_value (u32_bytes v)) (tail_reg_read i s h)
        ∙ le_value-u32_bytes (s.chan i).i2x_tail w)
      k,
  s,
)
