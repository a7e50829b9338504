-- ===== src/Driver/Receive/Wrapped.antt =====
-- tests/test_boot.c against src/xdna_mailbox.c: the driver follows a tombstone to the start of the
-- ring, where the message is.
use xdna1_npu_emulator.Prelude.{
  ℕ, suc, ◌+◌, ◌^◌, ◌≤◌, ◌<◌, ◌≡◌, refl, sym, ap, ◌∙◌, ◌≢◌, true, false, List, arith, ◌==◌, eq→==,
  ne→==, add32, u32_bytes,
}
use xdna1_npu_emulator.Regs.{bar_sram, bar_mbox, bar_sram_size, mbox_i2x_head_off, mbox_tombstone}
use xdna1_npu_emulator.Mem.{read_bytes}
use xdna1_npu_emulator.State.{XdnaNpu, max_channels, update}
use xdna1_npu_emulator.Device.{xdna_npu_mmio_read_buf}
use xdna1_npu_emulator.Mailbox.{write_chan_reg}
use xdna1_npu_emulator.Invariant.{ring_size, Inv}
use xdna1_npu_emulator.Invariant.Send.{ring_base_bound}
use xdna1_npu_emulator.Invariant.Access.{regs-Inv}
use xdna1_npu_emulator.Driver.{rd32}
use xdna1_npu_emulator.Driver.Receive.{Drv, wrap_head, skip_tombstone, recv_loop}
use xdna1_npu_emulator.Driver.Receive.Access.{Attached, sram_read, mbox_write, tail_read}

-- At the driver's position, which is not the tail, there is a tombstone.
pub record Marked (i : ℕ) (s : XdnaNpu) : Type 0 where
  pub channel : i < max_channels
  pub active : (s.chan i).active ≡ true
  pub word :
      read_bytes s.sram ((s.chan i).i2x_buf + (s.chan i).i2x_head) 4 ≡ u32_bytes mbox_tombstone
  pub fits : (s.chan i).i2x_head + 4 ≤ ring_size i
  pub unread : (s.chan i).i2x_head ≢ (s.chan i).i2x_tail
  pub tail_word : (s.chan i).i2x_tail < 2 ^ 32

module _ (i : ℕ) (s : XdnaNpu) (d : Drv) (w : Inv s) (q : Marked i s)
    (o : Attached i (s.chan i) d) where
  -- The device and the driver after the step back.
  abbrev pub rewound : XdnaNpu
  rewound = record s { chan = update s.chan i (record (s.chan i) { i2x_head = 0 }) }

  abbrev pub restarted : Drv
  restarted = record d { i2x_head = 0 }

  pub rewound-Attached : Attached i (rewound.chan i) restarted
  rewound-Attached = rw (eq→== i i refl) (record {
    rb_start = o.rb_start;
    rb_size = o.rb_size;
    head_reg = o.head_reg;
    tail_reg = o.tail_reg;
    intr_reg = o.intr_reg;
    position = refl;
  })

  pub rewound-Inv : Inv rewound
  rewound-Inv = regs-Inv i (s.chan i).x2i_tail 0 (s.chan i).intr s w

  bound : (s.chan i).i2x_buf + (s.chan i).i2x_head + 4 ≤ bar_sram_size
  bound = omega (arith, (w.rings i q.channel q.active).i2x_buf, ring_base_bound i q.channel, q.fits)

  place : add32 d.i2x.rb_start d.i2x_head ≡ (s.chan i).i2x_buf + (s.chan i).i2x_head
  place = omega (arith, o.rb_start, o.position, bound)

  no_wrap : wrap_head d ≡ d.i2x_head
  no_wrap =
      let size = (w.rings i q.channel q.active).i2x_size in
      rw
        (ne→== d.i2x_head d.i2x.rb_size
          (λ e. absurd (omega (arith, e, o.position, o.rb_size, size, q.fits))))
        refl

  tail_seen : rd32 bar_mbox d.i2x.tail_reg s ≡ ((s.chan i).i2x_tail, s)
  tail_seen = rw o.tail_reg (tail_read i s q.channel q.tail_word)

  peeked :
      xdna_npu_mmio_read_buf bar_sram
        (add32 d.i2x.rb_start (wrap_head d))
        4
        (rd32 bar_mbox d.i2x.tail_reg s).1
      ≡ (u32_bytes mbox_tombstone, s)
  peeked =
      let at = (s.chan i).i2x_buf + (s.chan i).i2x_head in
      rw (tail_seen, no_wrap, place)
        (sram_read at 4 s (omega (arith, bound)) ∙ (λ k. (q.word k, s)))

  back : skip_tombstone d s ≡ rewound
  unfolding skip_tombstone write_chan_reg
  back = rw o.head_reg (mbox_write i mbox_i2x_head_off 0 s q.channel (omega arith) (omega arith))

  -- One round of the search goes back to the start of the ring.
  pub search_skips : (n : ℕ) → recv_loop (suc n) d s ≡ recv_loop n restarted rewound
  unfolding recv_loop
  search_skips n =
      let differs : (d.i2x_head == (s.chan i).i2x_tail) ≡ false =
        ne→== d.i2x_head (s.chan i).i2x_tail (λ e. q.unread (sym o.position ∙ e)) in
      rw (recv_loop, tail_seen, differs)
        (rw (recv_loop, peeked)
          (ap (recv_loop n restarted)
            (ap (λ (r : List ℕ × XdnaNpu). skip_tombstone d r.1) peeked ∙ back)))
