-- ===== src/Invariant/Access.antt =====
-- Every access of the driver to the BARs keeps the invariants.
use xdna1_npu_emulator.Prelude.{
  ℕ, ◌+◌, ◌/◌, ◌%◌, ◌≤◌, ◌<◌, ◌≡◌, refl, true, ◌||◌, Option, none, some, leb, ◌==◌, leb→lt, ==→eq,
  if_keeps, if_elim,
}
use xdna1_npu_emulator.Regs.{
  mbox_chan_stride, mbox_x2i_head_off, mbox_x2i_tail_off, mbox_i2x_head_off, mbox_intr_off,
  mbox_i2x_tail_off,
}
use xdna1_npu_emulator.State.{XdnaChannel, XdnaNpu, max_channels, update, log_warn}
use xdna1_npu_emulator.Mailbox.Channel.{chan_from_off}
use xdna1_npu_emulator.Mailbox.{write_chan_reg, xdna_mbox_reg_write}
use xdna1_npu_emulator.Invariant.{ring_size, Inv, Safe}
use xdna1_npu_emulator.Invariant.Basic.{
  SameChannel, update-WellFormed, update-RingsSafe, xdna_log-keeps,
}
use xdna1_npu_emulator.Invariant.Process.{process-Inv}
use xdna1_npu_emulator.Invariant.ProcessSafe.{process-Safe}

-- A write of `val` at `off` of the MBOX BAR that moves no read position out of its ring.
abbrev pub KeepsHead : ℕ → ℕ → Type 0
KeepsHead off val =
    off / mbox_chan_stride < max_channels
    → off % mbox_chan_stride ≡ mbox_i2x_head_off
    → val + 4 ≤ ring_size (off / mbox_chan_stride)

pub chan_from_off-elim {ℓ} :
    (P : Option (ℕ × ℕ) → Type ℓ) (off : ℕ)
    → P none
    → (off / mbox_chan_stride < max_channels
        → P (some (off / mbox_chan_stride, off % mbox_chan_stride)))
    → P (chan_from_off off)
unfolding chan_from_off
chan_from_off-elim P off p q =
    if_elim P (leb max_channels (off / mbox_chan_stride)) (λ _. p)
      (λ e. q (leb→lt max_channels (off / mbox_chan_stride) e))

-- The registers that a driver writes.
abbrev pub with_regs : XdnaChannel → ℕ → ℕ → ℕ → XdnaChannel
with_regs c tail head intr = record c { x2i_tail = tail; i2x_head = head; intr = intr }

with_regs-same : (c : XdnaChannel) (tail head intr : ℕ) → SameChannel (with_regs c tail head intr) c
with_regs-same c tail head intr = record {
  active = refl;
  index = refl;
  x2i_buf = refl;
  x2i_size = refl;
  i2x_buf = refl;
  i2x_size = refl;
}

module _ (idx tail head intr : ℕ) (s : XdnaNpu) where
  abbrev pub c' : XdnaChannel
  c' = with_regs (s.chan idx) tail head intr

  pub regs-Inv : Inv s → Inv (record s { chan = update s.chan idx c' })
  regs-Inv w = update-WellFormed w idx c' (with_regs-same (s.chan idx) tail head intr)

  pub regs-Safe :
      (idx < max_channels → (s.chan idx).active ≡ true → head + 4 ≤ ring_size idx)
      → Safe s
      → Safe (record s { chan = update s.chan idx c' })
  regs-Safe h v =
      (regs-Inv v.0, update-RingsSafe idx c' (λ i a. (h i a, (v.1.in_ring idx i a).1)) v.1)

module _ (idx reg val : ℕ) (s : XdnaNpu) where
  write_chan_reg-Inv : Inv s → Inv (write_chan_reg idx reg val s)
  unfolding write_chan_reg
  write_chan_reg-Inv w =
      if_keeps Inv (reg == mbox_x2i_tail_off)
        (process-Inv c.index (record s { chan = update s.chan idx (record c { x2i_tail = val }) })
          (regs-Inv idx val c.i2x_head c.intr s w))
        (if_keeps Inv (reg == mbox_i2x_head_off) (regs-Inv idx c.x2i_tail val c.intr s w) (
          if_keeps Inv (reg == mbox_intr_off) (regs-Inv idx c.x2i_tail c.i2x_head val s w) (
            if_keeps Inv (reg == mbox_x2i_head_off || reg == mbox_i2x_tail_off)
              (xdna_log-keeps Inv log_warn s w w) w)))
    where
      c : XdnaChannel
      c = s.chan idx

  write_chan_reg-Safe :
      (reg ≡ mbox_i2x_head_off → val + 4 ≤ ring_size idx)
      → Safe s
      → Safe (write_chan_reg idx reg val s)
  unfolding write_chan_reg
  write_chan_reg-Safe h v =
      if_keeps Safe (reg == mbox_x2i_tail_off)
        (process-Safe c.index (record s { chan = update s.chan idx (record c { x2i_tail = val }) })
          (regs-Safe idx val c.i2x_head c.intr s old v))
        (if_elim Safe (reg == mbox_i2x_head_off)
          (λ e. regs-Safe idx c.x2i_tail val c.intr s (λ _ _. h (==→eq reg mbox_i2x_head_off e)) v)
          (λ _.
            if_keeps Safe (reg == mbox_intr_off) (regs-Safe idx c.x2i_tail c.i2x_head val s old v) (
              if_keeps Safe (reg == mbox_x2i_head_off || reg == mbox_i2x_tail_off)
                (xdna_log-keeps Safe log_warn s v v) v)))
    where
      c : XdnaChannel
      c = s.chan idx

      old : idx < max_channels → c.active ≡ true → c.i2x_head + 4 ≤ ring_size idx
      old i a = (v.1.in_ring idx i a).0

pub mbox_reg_write-Inv : (off val : ℕ) (s : XdnaNpu) → Inv s → Inv (xdna_mbox_reg_write off val s)
unfolding xdna_mbox_reg_write
mbox_reg_write-Inv off val s w =
    chan_from_off-elim
      (λ o. Inv (elim o [ none ↦ s | some (idx, reg) ↦ write_chan_reg idx reg val s ])) off w
      (λ _. write_chan_reg-Inv (off / mbox_chan_stride) (off % mbox_chan_stride) val s w)

pub mbox_reg_write-Safe :
    (off val : ℕ) (s : XdnaNpu) → KeepsHead off val → Safe s → Safe (xdna_mbox_reg_write off val s)
unfolding xdna_mbox_reg_write
mbox_reg_write-Safe off val s h v =
    chan_from_off-elim
      (λ o. Safe (elim o [ none ↦ s | some (idx, reg) ↦ write_chan_reg idx reg val s ])) off v
      (λ l. write_chan_reg-Safe (off / mbox_chan_stride) (off % mbox_chan_stride) val s (h l) v)
