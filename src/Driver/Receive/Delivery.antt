-- ===== src/Driver/Receive/Delivery.antt =====
-- tests/test_boot.c against src/xdna_mailbox.c: what the device sends, the driver receives.
use xdna1_npu_emulator.Prelude.{
  ℕ, ◌+◌, ◌≤◌, ◌<◌, ◌≡◌, refl, ap, ◌∙◌, subst, Bool, true, false, some, List, arith, ltb, le→ltb,
  eq→==, length, add32,
}
use xdna1_npu_emulator.State.{XdnaChannel, XdnaNpu, max_channels}
use xdna1_npu_emulator.Mailbox.Send.{
  header_size, message_header, usable_size, package_size, write_tail, is_full, put_tombstone,
  put_message, set_tail, deliver, xdna_mbox_send,
}
use xdna1_npu_emulator.Invariant.Send.{
  ring_size_cases, put_tombstone-chan, put_message-chan, notify-keeps, send-Inv,
}
use xdna1_npu_emulator.Driver.Receive.{Drv, mbox_recv}
use xdna1_npu_emulator.Mailbox.Deliver.{MessageAt, send_accepts}
use xdna1_npu_emulator.Mailbox.Outgoing.{send_delivers}
use xdna1_npu_emulator.Mailbox.Incoming.{Words}
use xdna1_npu_emulator.Invariant.{ring_size, Safe}
use xdna1_npu_emulator.Driver.Receive.Access.{Attached}
use xdna1_npu_emulator.Driver.Receive.Find.{Arrived}
use xdna1_npu_emulator.Driver.Receive.Roundtrip.{recv_takes}

-- The channel after a delivery.
pub deliver-chan :
    (i id opcode : ℕ) (payload : List ℕ) (s : XdnaNpu)
    → (deliver i id opcode payload s).chan i ≡ record (s.chan i) {
      i2x_tail = add32 (write_tail (s.chan i) (package_size payload)) (package_size payload);
      intr = 1;
    }
unfolding deliver
deliver-chan i id opcode payload s =
    let c = s.chan i in
    let pkg = package_size payload in
    let at = c.i2x_buf + write_tail c pkg in
    let hdr = message_header (length payload) id opcode in
    let t = put_tombstone c pkg s in
    let placed = put_message at hdr payload t in
    let end = add32 (write_tail c pkg) pkg in
    let same : placed.chan ≡ s.chan =
      put_message-chan at hdr payload t ∙ put_tombstone-chan c pkg s in
    let p : (set_tail i end placed).chan i ≡ record (s.chan i) { i2x_tail = end; intr = 1 } =
      rw (eq→== i i refl) (λ k. record (same k i) { i2x_tail = end; intr = 1 }) in
    notify-keeps (λ (u : XdnaNpu). u.chan i ≡ record (s.chan i) { i2x_tail = end; intr = 1 }) i
      (set_tail i end placed) p p

module _ (i id opcode : ℕ) (payload : List ℕ) (s : XdnaNpu) (h : i < max_channels)
    (a : (s.chan i).active ≡ true) (v : Safe s)
    (fits : length payload + header_size + 4 ≤ ring_size i)
    (room : is_full (s.chan i) (package_size payload) ≡ false) where
  abbrev c : XdnaChannel
  c = s.chan i

  abbrev pkg : ℕ
  pkg = package_size payload

  abbrev t : XdnaNpu
  t = (xdna_mbox_send i id opcode payload s).1

  pub big : ltb (usable_size c) pkg ≡ false
  big =
      let size : c.i2x_size ≡ ring_size i = (v.0.rings i h a).i2x_size in
      le→ltb (usable_size c) pkg (ground (arith, ring_size_cases i))

  pub accepts : xdna_mbox_send i id opcode payload s ≡ (true, deliver i id opcode payload s)
  accepts = send_accepts i id opcode payload s h a (omega (arith, ring_size_cases i)) big room

  pub sent-chan : t.chan i ≡ record c { i2x_tail = add32 (write_tail c pkg) pkg; intr = 1 }
  sent-chan = ap (λ (x : Bool × XdnaNpu). x.1.chan i) accepts ∙ deliver-chan i id opcode payload s

  pub sent-Attached : (d : Drv) → Attached i c d → Attached i (t.chan i) d
  sent-Attached d o = rw sent-chan (record {
    rb_start = o.rb_start;
    rb_size = o.rb_size;
    head_reg = o.head_reg;
    tail_reg = o.tail_reg;
    intr_reg = o.intr_reg;
    position = o.position;
  })

  -- A message behind the tail has arrived.
  pub behind-Arrived :
      c.i2x_head ≡ c.i2x_tail
      → write_tail c pkg ≡ c.i2x_tail
      → 0 < length payload
      → Words (message_header (length payload) id opcode)
      → Arrived i (message_header (length payload) id opcode) payload t
        × ((t.chan i).i2x_head + header_size + length payload ≡ (t.chan i).i2x_tail)
        × ((t.chan i).i2x_tail + 4 ≤ ring_size i)
  behind-Arrived drained stays some_bytes words =
      let hdr = message_header (length payload) id opcode in
      let sent = send_delivers i id opcode payload s h a v fits room in
      let buf : (t.chan i).i2x_buf ≡ c.i2x_buf = ap (λ (x : XdnaChannel). x.i2x_buf) sent-chan in
      let head : (t.chan i).i2x_head ≡ c.i2x_head =
        ap (λ (x : XdnaChannel). x.i2x_head) sent-chan in
      let tail : (t.chan i).i2x_tail ≡ c.i2x_tail + header_size + length payload =
        sent.1.tail ∙ omega (arith, stays) in
      (
        record {
          channel = h;
          active = ap (λ (x : XdnaChannel). x.active) sent-chan ∙ a;
          words = words;
          message =
              subst (λ (p : ℕ). MessageAt p hdr payload t.sram)
                (omega (arith, buf, head, stays, drained)) sent.1.message;
          size = refl;
          some_bytes = some_bytes;
          fits = omega (arith, head, drained, stays, sent.2);
          unread = λ x. absurd (omega (arith, x, head, tail, drained));
          tail_word = omega (arith, tail, stays, sent.2, ring_size_cases i);
        },
        omega (arith, head, tail, drained),
        omega (arith, tail, stays, sent.2),
      )

-- On an active channel of a device that is in order, if the driver has read everything, knows the
-- ring, and the message, which is not empty, fits behind the tail, then what the device sends is what
-- the driver receives: the header with the size, the id and the opcode, and the payload, whereupon
-- the driver's position is the tail again.
pub recv-send :
    (i id opcode : ℕ) (payload : List ℕ) (s : XdnaNpu) (d : Drv)
    → i < max_channels
    → (s.chan i).active ≡ true
    → Safe s
    → Attached i (s.chan i) d
    → (s.chan i).i2x_head ≡ (s.chan i).i2x_tail
    → (s.chan i).i2x_tail + header_size + length payload + 4 ≤ ring_size i
    → 0 < length payload
    → Words (message_header (length payload) id opcode)
    → let t = (xdna_mbox_send i id opcode payload s).1 in
      let r = mbox_recv (length payload) d t in
      (r.0 ≡ some (record { hdr = message_header (length payload) id opcode; resp = payload }))
      × ((r.2.chan i).i2x_head ≡ (t.chan i).i2x_tail)
recv-send i id opcode payload s d h a v o drained fits some_bytes words =
    let c = s.chan i in
    let pkg = package_size payload in
    let size : c.i2x_size ≡ ring_size i = (v.0.rings i h a).i2x_size in
    let stays : write_tail c pkg ≡ c.i2x_tail = ground (arith, ring_size_cases i) in
    let open_ring : is_full c pkg ≡ false =
      rw (le→ltb (write_tail c pkg) c.i2x_head (omega (arith, stays, drained))) in
    let small : length payload + header_size + 4 ≤ ring_size i = omega (arith, fits) in
    let q =
      behind-Arrived i id opcode payload s h a v small open_ring drained stays some_bytes words in
    let t = (xdna_mbox_send i id opcode payload s).1 in
    let r =
      recv_takes i (message_header (length payload) id opcode) payload t d
        (send-Inv i id opcode payload s v.0) q.0
        (sent-Attached i id opcode payload s h a v small open_ring d o) in
    (r.0, r.2 ∙ q.1)
