-- ===== src/Mailbox/Overrun.antt =====
-- What `xdna_mbox_send` does with a read position that it should not trust: 0 on a ring that is
-- full to its end, and one beyond the ring.
use xdna1_npu_emulator.Prelude.{
  ℕ, ◌+◌, ◌^◌, ◌≤◌, ◌<◌, ◌≡◌, refl, ap, ◌∙◌, subst, inl, true, false, List, arith, ◌==◌, le→ltb,
  lt→leb, eq→==, if_keeps, length, add32,
}
use xdna1_npu_emulator.Regs.{bar_sram_size}
use xdna1_npu_emulator.State.{XdnaMsgHeader, XdnaChannel, XdnaNpu, max_channels, in_sram, store}
use xdna1_npu_emulator.Mailbox.Send.{
  header_size, header_bytes, message_header, usable_size, package_size, wraps, write_tail, is_full,
  put_tombstone, put_message, set_tail, deliver, xdna_mbox_send,
}
use xdna1_npu_emulator.Mailbox.Deliver.{MessageAt, send_accepts}
use xdna1_npu_emulator.Mailbox.Outgoing.{IsUnread, send_delivers}
use xdna1_npu_emulator.Invariant.{ring_size, Inv, Safe}
use xdna1_npu_emulator.Invariant.Send.{ring_size_cases, notify-keeps}

-- With the driver's position at 0 and no room behind the tail, the ring is full; the message is
-- accepted nevertheless. It overwrites the unread bytes from offset 0 on, and the tail goes back
-- to the end of the new message, so that the driver is not shown the unread ones any more.
pub send_overwrites :
    (i id opcode : ℕ) (payload : List ℕ) (s : XdnaNpu)
    → i < max_channels
    → (s.chan i).active ≡ true
    → Safe s
    → length payload + header_size + 4 ≤ ring_size i
    → (s.chan i).i2x_head ≡ 0
    → ring_size i < (s.chan i).i2x_tail + header_size + length payload + 4
    → let r = xdna_mbox_send i id opcode payload s in
      IsUnread i (s.chan i) 0
      × (r.0 ≡ true)
      × MessageAt (s.chan i).i2x_buf (message_header (length payload) id opcode) payload r.1.sram
      × ((r.1.chan i).i2x_tail ≡ header_size + length payload)
send_overwrites i id opcode payload s h a v fits at_zero full =
    let c = s.chan i in
    let pkg = package_size payload in
    let place : write_tail c pkg ≡ 0 =
      back_to_zero c (v.0.rings i h a).i2x_size at_zero full (v.1.in_ring i h a).1 in
    let open_ring : is_full c pkg ≡ false =
      rw (le→ltb (write_tail c pkg) c.i2x_head (omega arith)) in
    let sent = send_delivers i id opcode payload s h a v fits open_ring in
    let d = sent.1 in
    (
      inl (omega arith, omega arith, omega (arith, fits)),
      sent.0,
      subst
          (λ (at : ℕ).
            MessageAt at (message_header (length payload) id opcode) payload
              (xdna_mbox_send i id opcode payload s).1.sram)
          (omega (arith, place)) d.message,
      omega (arith, d.tail, place),
    )
  where
    back_to_zero :
        (c : XdnaChannel)
        → c.i2x_size ≡ ring_size i
        → c.i2x_head ≡ 0
        → ring_size i < c.i2x_tail + header_size + length payload + 4
        → c.i2x_tail + 4 ≤ ring_size i
        → write_tail c (package_size payload) ≡ 0
    back_to_zero c size zero_head over in_ring = ground (arith, ring_size_cases i)

-- A read position beyond the ring is believed.
module _ (i id opcode : ℕ) (payload : List ℕ) (s : XdnaNpu) (h : i < max_channels)
    (a : (s.chan i).active ≡ true) (w : Inv s)
    (fits : length payload + header_size + 4 ≤ ring_size i)
    (ahead : (s.chan i).i2x_tail + header_size + length payload < (s.chan i).i2x_head)
    (word : (s.chan i).i2x_head < 2 ^ 32) where
  -- The message is accepted at the tail.
  overrun_accepts : xdna_mbox_send i id opcode payload s ≡ (true, deliver i id opcode payload s)
  overrun_accepts =
      let size : (s.chan i).i2x_size ≡ ring_size i = (w.rings i h a).i2x_size in
      send_accepts i id opcode payload s h a (omega (arith, ring_size_cases i))
        (le→ltb (usable_size (s.chan i)) (package_size payload) (ground (arith, ring_size_cases i)))
        (ground (arith, ring_size_cases i))

  stays : wraps (s.chan i) (package_size payload) ≡ false
  stays = ground arith

-- Stores do not undo a fault.
store-fault : (off : ℕ) (bs : List ℕ) (s : XdnaNpu) → s.fault ≡ true → (store off bs s).fault ≡ true
unfolding store
store-fault off bs s e = if_keeps (λ (t : XdnaNpu). t.fault ≡ true) (in_sram off (length bs)) e refl

put_message-fault :
    (at : ℕ) (hdr : XdnaMsgHeader) (payload : List ℕ) (s : XdnaNpu)
    → bar_sram_size < at + header_size
    → (put_message at hdr payload s).fault ≡ true
unfolding put_message
put_message-fault at hdr payload s out =
    if_keeps (λ (t : XdnaNpu). t.fault ≡ true) (length payload == 0) first
      (store-fault (at + header_size) payload (store at (header_bytes hdr) s) first)
  where
    first : (store at (header_bytes hdr) s).fault ≡ true
    first = unfold store in (rw (lt→leb (at + header_size) bar_sram_size out))

-- If the driver's read position lies ahead of where a message that fits into a ring would end, then
-- in a well-formed device the message is accepted on the active channel, wherever the tail stands,
-- past the end of the ring too, and the tail moves on behind it.
pub send_leaves_ring :
    (i id opcode : ℕ) (payload : List ℕ) (s : XdnaNpu)
    → i < max_channels
    → (s.chan i).active ≡ true
    → Inv s
    → length payload + header_size + 4 ≤ ring_size i
    → (s.chan i).i2x_tail + header_size + length payload < (s.chan i).i2x_head
    → (s.chan i).i2x_head < 2 ^ 32
    → let r = xdna_mbox_send i id opcode payload s in
      (r.0 ≡ true) × ((r.1.chan i).i2x_tail ≡ (s.chan i).i2x_tail + header_size + length payload)
unfolding deliver
send_leaves_ring i id opcode payload s h a w fits ahead word =
    let c = s.chan i in
    let pkg = package_size payload in
    let at = c.i2x_buf + write_tail c pkg in
    let hdr = message_header (length payload) id opcode in
    let placed = put_message at hdr payload (put_tombstone c pkg s) in
    let place : write_tail c pkg ≡ c.i2x_tail =
      rw (stays i id opcode payload s h a w fits ahead word) in
    let end : add32 (write_tail c pkg) pkg ≡ c.i2x_tail + header_size + length payload =
      omega (arith, place) in
    let moved : (set_tail i (add32 (write_tail c pkg) pkg) placed).chan i
        ≡ record (placed.chan i) { i2x_tail = add32 (write_tail c pkg) pkg; intr = 1 } =
      rw (eq→== i i refl) in
    let q = ap (λ (d : XdnaChannel). d.i2x_tail) moved ∙ end in
    rw (overrun_accepts i id opcode payload s h a w fits ahead word) (
      refl,
      notify-keeps
          (λ (t : XdnaNpu). (t.chan i).i2x_tail ≡ c.i2x_tail + header_size + length payload) i
          (set_tail i (add32 (write_tail c pkg) pkg) placed) q q,
    )

-- If moreover the header at the tail would end behind the SRAM, the message is accepted and written
-- outside of the SRAM.
pub send_faults :
    (i id opcode : ℕ) (payload : List ℕ) (s : XdnaNpu)
    → i < max_channels
    → (s.chan i).active ≡ true
    → Inv s
    → length payload + header_size + 4 ≤ ring_size i
    → (s.chan i).i2x_tail + header_size + length payload < (s.chan i).i2x_head
    → (s.chan i).i2x_head < 2 ^ 32
    → bar_sram_size < (s.chan i).i2x_buf + (s.chan i).i2x_tail + header_size
    → let r = xdna_mbox_send i id opcode payload s in (r.0 ≡ true) × (r.1.fault ≡ true)
unfolding deliver
send_faults i id opcode payload s h a w fits ahead word out =
    let c = s.chan i in
    let pkg = package_size payload in
    let at = c.i2x_buf + write_tail c pkg in
    let hdr = message_header (length payload) id opcode in
    let s' = put_tombstone c pkg s in
    let placed = put_message at hdr payload s' in
    let place : write_tail c pkg ≡ c.i2x_tail =
      rw (stays i id opcode payload s h a w fits ahead word) in
    let bad : placed.fault ≡ true = put_message-fault at hdr payload s' (omega (arith, place)) in
    rw (overrun_accepts i id opcode payload s h a w fits ahead word) (
      refl,
      notify-keeps (λ (t : XdnaNpu). t.fault ≡ true) i
          (set_tail i (add32 (write_tail c pkg) pkg) placed) bad bad,
    )
