-- ===== src/Driver/Receive/Roundtrip.antt =====
-- tests/test_boot.c against src/xdna_mailbox.c: the driver receives what lies in an outgoing ring.
use xdna1_npu_emulator.Prelude.{ℕ, ◌+◌, ◌<◌, ◌≡◌, refl, ap, ◌∙◌, some, List, arith, eq→==, length}
use xdna1_npu_emulator.Driver.Receive.Find.{Arrived, search_takes}
use xdna1_npu_emulator.Driver.Receive.Access.{Attached, mbox_write}
use xdna1_npu_emulator.Invariant.Access.{regs-Inv}
use xdna1_npu_emulator.Regs.{mbox_intr_off}
use xdna1_npu_emulator.State.{XdnaMsgHeader, XdnaNpu, max_channels, update}
use xdna1_npu_emulator.Mailbox.Send.{header_size}
use xdna1_npu_emulator.Mailbox.{write_chan_reg}
use xdna1_npu_emulator.Invariant.{Inv}
use xdna1_npu_emulator.Driver.Receive.{Drv, recv_loop, finish, mbox_recv}

module _ (i : ℕ) (s : XdnaNpu) (d : Drv) where
  -- The device after the driver has acknowledged the interrupt.
  abbrev pub acked : XdnaNpu
  acked = record s { chan = update s.chan i (record (s.chan i) { intr = 0 }) }

  pub acked-chan : acked.chan i ≡ record (s.chan i) { intr = 0 }
  acked-chan = rw (eq→== i i refl) refl

  pub acked-Attached : Attached i (s.chan i) d → Attached i (acked.chan i) d
  acked-Attached o = rw acked-chan (record {
    rb_start = o.rb_start;
    rb_size = o.rb_size;
    head_reg = o.head_reg;
    tail_reg = o.tail_reg;
    intr_reg = o.intr_reg;
    position = o.position;
  })

  pub recv_searches :
      i < max_channels
      → Attached i (s.chan i) d
      → (size : ℕ) → mbox_recv size d s ≡ finish size (recv_loop 64 d acked)
  unfolding write_chan_reg mbox_recv
  recv_searches h o size =
      ap (λ (u : XdnaNpu). finish size (recv_loop 64 d u))
        (rw o.intr_reg (mbox_write i mbox_intr_off 0 s h (omega arith) (omega arith)))

module _ (i : ℕ) (hdr : XdnaMsgHeader) (payload : List ℕ) (s : XdnaNpu) (d : Drv) (w : Inv s)
    (q : Arrived i hdr payload s) (o : Attached i (s.chan i) d) where
  pub acked-Arrived : Arrived i hdr payload (acked i s d)
  acked-Arrived = record {
    channel = q.channel;
    active = rw (eq→== i i refl) q.active;
    words = q.words;
    message = rw (eq→== i i refl) q.message;
    size = q.size;
    some_bytes = q.some_bytes;
    fits = rw (eq→== i i refl) q.fits;
    unread = rw (eq→== i i refl) q.unread;
    tail_word = rw (eq→== i i refl) q.tail_word;
  }

  -- The message is received, with its header and its payload, and the driver's position moves behind
  -- it, in the driver and in the register.
  pub recv_takes :
      let r = mbox_recv (length payload) d s in
      let next = (s.chan i).i2x_head + header_size + length payload in
      (r.0 ≡ some (record { hdr = hdr; resp = payload }))
      × (r.1.i2x_head ≡ next)
      × ((r.2.chan i).i2x_head ≡ next)
  unfolding write_chan_reg
  recv_takes =
      rw
        (recv_searches i s d q.channel o (length payload)
          ∙ search_takes i hdr payload (acked i s d) d
              (regs-Inv i (s.chan i).x2i_tail (s.chan i).i2x_head 0 s w) acked-Arrived
              (acked-Attached i s d o) 63)
        (refl, rw (eq→== i i refl) refl, rw (eq→== i i refl) refl)
