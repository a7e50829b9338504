-- ===== src/Driver/Send/Feed.antt =====
-- tests/test_boot.c against src/xdna_device.c: the driver's accesses to an incoming ring.
use xdna1_npu_emulator.Prelude.{
  ℕ, ◌+◌, ◌^◌, ◌≤◌, ◌<◌, ◌≡◌, refl, ap, ◌∙◌, List, arith, le→ltb, le→leb, length, le_value,
  u32_bytes, le_value-u32_bytes,
}
use xdna1_npu_emulator.Regs.{
  bar_sram, bar_mbox, bar_sram_size, mbox_x2i_head_off, mbox_x2i_tail_off, mbox_chan_base,
}
use xdna1_npu_emulator.Mem.{read_bytes, write_bytes}
use xdna1_npu_emulator.State.{XdnaChannel, XdnaNpu, max_channels, store}
use xdna1_npu_emulator.Device.{
  word_read, read_words, xdna_npu_mmio_read_buf, xdna_npu_mmio_write_buf, xdna_npu_mmio_read,
  xdna_npu_mmio_write,
}
use xdna1_npu_emulator.Mailbox.Channel.{xdna_mbox_reg_read}
use xdna1_npu_emulator.Driver.{rd32, wr32}
use xdna1_npu_emulator.Driver.Receive.{Drv}
use xdna1_npu_emulator.Driver.Receive.Access.{sram_read, reg_of_chan}

-- The driver knows the incoming ring of channel `i`, and its tail is the one in the register.
pub record Feeds (i : ℕ) (c : XdnaChannel) (d : Drv) : Type 0 where
  pub rb_start : d.x2i.rb_start ≡ c.x2i_buf
  pub rb_size : d.x2i.rb_size ≡ c.x2i_size
  pub head_reg : d.x2i.head_reg ≡ mbox_chan_base i + mbox_x2i_head_off
  pub tail_reg : d.x2i.tail_reg ≡ mbox_chan_base i + mbox_x2i_tail_off
  pub position : d.x2i_tail ≡ c.x2i_tail

pub sram_write :
    (off : ℕ) (bs : List ℕ) (s : XdnaNpu)
    → off + length bs ≤ bar_sram_size
    → xdna_npu_mmio_write_buf bar_sram off bs s ≡ record s { sram = write_bytes s.sram off bs }
unfolding xdna_npu_mmio_write_buf store
sram_write off bs s h =
    rw (le→ltb bar_sram_size (off + length bs) h, le→leb (off + length bs) bar_sram_size h) refl

pub sram_read32 :
    (off : ℕ) (s : XdnaNpu)
    → off + 4 ≤ bar_sram_size
    → rd32 bar_sram off s ≡ (le_value (read_bytes s.sram off 4), s)
unfolding rd32 xdna_npu_mmio_read
sram_read32 off s h = ap (λ (r : List ℕ × XdnaNpu). (le_value r.0, r.1)) (sram_read off 4 s h)

pub sram_write32 :
    (off v : ℕ) (s : XdnaNpu)
    → off + 4 ≤ bar_sram_size
    → wr32 bar_sram off v s ≡ record s { sram = write_bytes s.sram off (u32_bytes v) }
unfolding wr32 xdna_npu_mmio_write
sram_write32 off v s h = sram_write off (u32_bytes v) s h

head_reg_read :
    (i : ℕ) (s : XdnaNpu)
    → i < max_channels
    → xdna_mbox_reg_read (mbox_chan_base i + mbox_x2i_head_off) s ≡ (s.chan i).x2i_head
unfolding xdna_mbox_reg_read
head_reg_read i s h = rw (xdna_mbox_reg_read, reg_of_chan i mbox_x2i_head_off h (omega arith)) refl

pub head_read :
    (i : ℕ) (s : XdnaNpu)
    → i < max_channels
    → (s.chan i).x2i_head < 2 ^ 32
    → rd32 bar_mbox (mbox_chan_base i + mbox_x2i_head_off) s ≡ ((s.chan i).x2i_head, s)
unfolding rd32 xdna_npu_mmio_read xdna_npu_mmio_read_buf read_words word_read
head_read i s h w = λ k. (
  (ap (λ (v : ℕ). le_value (u32_bytes v)) (head_reg_read i s h)
        ∙ le_value-u32_bytes (s.chan i).x2i_head w)
      k,
  s,
)
