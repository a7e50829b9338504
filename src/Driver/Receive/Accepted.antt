-- ===== src/Driver/Receive/Accepted.antt =====
-- tests/test_boot.c against src/xdna_mailbox.c: what the device accepts, the driver receives, behind
-- the tail or, after a tombstone, at the start of the ring.
use xdna1_npu_emulator.Prelude.{
  ℕ, ◌+◌, ◌≤◌, ◌<◌, ◌≡◌, refl, sym, ap, ◌∙◌, subst, inl, inr, Bool, true, false, List, arith, eq→==,
  ne→==, Bool-cases, length, add32,
}
use xdna1_npu_emulator.Regs.{bar_sram_size}
use xdna1_npu_emulator.Mem.{read_bytes}
use xdna1_npu_emulator.State.{XdnaMsgHeader, XdnaChannel, XdnaNpu, max_channels}
use xdna1_npu_emulator.Mailbox.Send.{
  header_size, message_header, package_size, wraps, write_tail, is_full, xdna_mbox_send,
}
use xdna1_npu_emulator.Mailbox.Deliver.{MessageAt}
use xdna1_npu_emulator.Mailbox.Outgoing.{send_delivers}
use xdna1_npu_emulator.Mailbox.Incoming.{Words}
use xdna1_npu_emulator.Invariant.{ring_size, Inv, Safe}
use xdna1_npu_emulator.Invariant.Send.{ring_base_bound, ring_size_cases}
use xdna1_npu_emulator.Invariant.SendSafe.{send-Safe}
use xdna1_npu_emulator.Invariant.Access.{regs-Safe}
use xdna1_npu_emulator.Driver.Receive.{Drv, finish, mbox_recv}
use xdna1_npu_emulator.Driver.Receive.Access.{Attached}
use xdna1_npu_emulator.Driver.Receive.Roundtrip.{
  acked, acked-chan, acked-Attached, recv_searches, acked-Arrived,
}
use xdna1_npu_emulator.Driver.Receive.Delivery.{accepts, sent-chan, sent-Attached, behind-Arrived}
use xdna1_npu_emulator.Driver.Receive.Taken.{IsTaken, search-IsTaken}
use xdna1_npu_emulator.Mailbox.Tombstone.{deliver_tombstone}
use xdna1_npu_emulator.Driver.Receive.Find.{Arrived, search_takes}
use xdna1_npu_emulator.Driver.Receive.Wrapped.{
  Marked, rewound, restarted, rewound-Attached, rewound-Inv, search_skips,
}

module _ (i id opcode : ℕ) (payload : List ℕ) (s : XdnaNpu) (d : Drv) (h : i < max_channels)
    (a : (s.chan i).active ≡ true) (v : Safe s) (o : Attached i (s.chan i) d)
    (drained : (s.chan i).i2x_head ≡ (s.chan i).i2x_tail)
    (fits : length payload + header_size + 4 ≤ ring_size i)
    (room : is_full (s.chan i) (package_size payload) ≡ false) (some_bytes : 0 < length payload)
    (words : Words (message_header (length payload) id opcode)) where
  abbrev c : XdnaChannel
  c = s.chan i

  abbrev pkg : ℕ
  pkg = package_size payload

  abbrev hdr : XdnaMsgHeader
  hdr = message_header (length payload) id opcode

  abbrev t : XdnaNpu
  t = (xdna_mbox_send i id opcode payload s).1

  abbrev sent : t.chan i ≡ record c { i2x_tail = add32 (write_tail c pkg) pkg; intr = 1 }
  sent = sent-chan i id opcode payload s h a v fits room

  t-Safe : Safe t
  t-Safe = send-Safe i id opcode payload s (omega (arith, fits, ring_size_cases i)) v

  t-Attached : Attached i (t.chan i) d
  t-Attached = sent-Attached i id opcode payload s h a v fits room d o

  old_head : i < max_channels → (t.chan i).active ≡ true → (t.chan i).i2x_head + 4 ≤ ring_size i
  old_head k e = (t-Safe.1.in_ring i k e).0

  ack-Safe : Safe (acked i t d)
  ack-Safe = regs-Safe i (t.chan i).x2i_tail (t.chan i).i2x_head 0 t old_head t-Safe

  module _ (wrapped : wraps c pkg ≡ true) where
    first : write_tail c pkg ≡ 0
    first = rw wrapped refl

    before : header_size + length payload < c.i2x_tail
    before =
        let size : c.i2x_size ≡ ring_size i = (v.0.rings i h a).i2x_size in
        ground (arith, wrapped, room, drained, size, fits, ring_size_cases i)

    at_end : c.i2x_tail + 4 ≤ ring_size i
    at_end = (v.1.in_ring i h a).1

    bound : c.i2x_buf + c.i2x_tail + 4 ≤ bar_sram_size
    bound = omega (arith, (v.0.rings i h a).i2x_buf, ring_base_bound i h, at_end)

    -- The device when the driver has acknowledged the interrupt, and when it has gone back.
    abbrev ack : XdnaNpu
    ack = acked i t d

    ack-chan : ack.chan i ≡ record c { i2x_tail = add32 (write_tail c pkg) pkg; intr = 0 }
    ack-chan = acked-chan i t d ∙ (λ k. record (sent k) { intr = 0 })

    tail : (ack.chan i).i2x_tail ≡ header_size + length payload
    tail =
        ap (λ (x : XdnaChannel). x.i2x_tail) ack-chan
        ∙ omega (arith, first, fits, ring_size_cases i)

    ack-Marked : Marked i ack
    ack-Marked =
        let head : (ack.chan i).i2x_head ≡ c.i2x_tail =
          ap (λ (x : XdnaChannel). x.i2x_head) ack-chan ∙ drained in
        let buf : (ack.chan i).i2x_buf ≡ c.i2x_buf = ap (λ (x : XdnaChannel). x.i2x_buf) ack-chan in
        record {
          channel = h;
          active = ap (λ (x : XdnaChannel). x.active) ack-chan ∙ a;
          word =
              ap (λ (x : ℕ). read_bytes t.sram x 4) (omega (arith, head, buf))
              ∙ ap (λ (x : Bool × XdnaNpu). read_bytes x.1.sram (c.i2x_buf + c.i2x_tail) 4)
                  (accepts i id opcode payload s h a v fits room)
              ∙ deliver_tombstone i id opcode payload s wrapped bound (omega (arith, before));
          fits = omega (arith, head, at_end);
          unread = λ e. absurd (omega (arith, e, head, tail, before));
          tail_word = omega (arith, tail, fits, ring_size_cases i);
        }

    ack-Inv : Inv ack
    ack-Inv = ack-Safe.0

    ack-Attached : Attached i (ack.chan i) d
    ack-Attached = acked-Attached i t d t-Attached

    abbrev back : XdnaNpu
    back = rewound i ack d ack-Inv ack-Marked ack-Attached

    back-chan :
        back.chan i ≡ record c { i2x_head = 0; i2x_tail = add32 (write_tail c pkg) pkg; intr = 0 }
    back-chan = rw (eq→== i i refl) (λ k. record (sent k) { i2x_head = 0; intr = 0 })

    back-Arrived : Arrived i hdr payload back
    back-Arrived =
        let head : (back.chan i).i2x_head ≡ 0 = ap (λ (x : XdnaChannel). x.i2x_head) back-chan in
        let buf : (back.chan i).i2x_buf ≡ c.i2x_buf =
          ap (λ (x : XdnaChannel). x.i2x_buf) back-chan in
        let end : (back.chan i).i2x_tail ≡ header_size + length payload =
          ap (λ (x : XdnaChannel). x.i2x_tail) back-chan
          ∙ omega (arith, first, fits, ring_size_cases i) in
        record {
          channel = h;
          active = ap (λ (x : XdnaChannel). x.active) back-chan ∙ a;
          words = words;
          message =
              subst (λ (p : ℕ). MessageAt p hdr payload t.sram) (omega (arith, buf, head, first))
                (send_delivers i id opcode payload s h a v fits room).1.message;
          size = refl;
          some_bytes = some_bytes;
          fits = omega (arith, head, fits);
          unread = λ e. absurd (omega (arith, e, head, end));
          tail_word = omega (arith, end, fits, ring_size_cases i);
        }

    at_tail : (back.chan i).i2x_head + header_size + length payload ≡ (t.chan i).i2x_tail
    at_tail = omega (
      arith,
      ap (λ (x : XdnaChannel). x.i2x_head) back-chan,
      ap (λ (x : XdnaChannel). x.i2x_tail) sent,
      first,
      fits,
      ring_size_cases i,
    )

    wrapped-IsTaken : IsTaken i hdr payload d t (mbox_recv (length payload) d t)
    wrapped-IsTaken =
        let r =
          search_takes i hdr payload back (restarted i ack d ack-Inv ack-Marked ack-Attached)
            (rewound-Inv i ack d ack-Inv ack-Marked ack-Attached) back-Arrived
            (rewound-Attached i ack d ack-Inv ack-Marked ack-Attached) 62 in
        let e =
          recv_searches i t d h t-Attached (length payload)
          ∙ ap (finish (length payload)) (search_skips i ack d ack-Inv ack-Marked ack-Attached 63)
          ∙ r in
        let head0 : (back.chan i).i2x_head ≡ 0 = ap (λ (x : XdnaChannel). x.i2x_head) back-chan in
        search-IsTaken i hdr payload d t back.chan (back.chan i).i2x_head
          (back-chan ∙ sym (λ k. record (sent k) { i2x_head = head0 k; intr = 0 })) at_tail
          (omega (arith, head0, fits)) (λ j o. rw (ne→== j i o) refl)
          (regs-Safe i (ack.chan i).x2i_tail 0 (ack.chan i).intr ack (λ _ _. omega (arith, fits))
            ack-Safe)
          _ e

  behind-IsTaken : wraps c pkg ≡ false → IsTaken i hdr payload d t (mbox_recv (length payload) d t)
  behind-IsTaken stays =
      let place : write_tail c pkg ≡ c.i2x_tail = rw stays refl in
      let q = behind-Arrived i id opcode payload s h a v fits room drained place some_bytes words in
      let e =
        recv_searches i t d h t-Attached (length payload)
        ∙ search_takes i hdr payload (acked i t d) d ack-Safe.0
            (acked-Arrived i hdr payload t d t-Safe.0 q.0 t-Attached)
            (acked-Attached i t d t-Attached) 63 in
      let k = acked-chan i t d in
      let head = ap (λ (x : XdnaChannel). x.i2x_head) k in
      search-IsTaken i hdr payload d t (acked i t d).chan ((acked i t d).chan i).i2x_head
        (k ∙ sym (λ j. record (t.chan i) { i2x_head = head j; intr = 0 }))
        (omega (arith, head, q.1)) (omega (arith, head, q.1, q.2)) (λ j o. rw (ne→== j i o) refl)
        ack-Safe _ e

  -- On an active channel of a device that is in order, if the driver has read everything and knows the
  -- ring, then a message that fits into the ring, is not empty and does not meet the driver's position
  -- is received, whether it lies behind the tail or wraps: the driver gets the header with the size,
  -- the id and the opcode, and the payload, and its position is the tail again, in the register too,
  -- with the interrupt acknowledged; the device is in order, and of it only channels have changed.
  pub accepted-IsTaken : IsTaken i hdr payload d t (mbox_recv (length payload) d t)
  accepted-IsTaken = elim (Bool-cases (wraps c pkg)) [
    | inl wrapped ↦ wrapped-IsTaken wrapped
    | inr stays ↦ behind-IsTaken stays
  ]
