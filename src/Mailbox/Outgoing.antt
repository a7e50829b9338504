-- ===== src/Mailbox/Outgoing.antt =====
-- The promises of `xdna_mbox_send` to the driver: delivery, refusal, and the unread messages.
use xdna1_npu_emulator.Prelude.{
  ℕ, ◌+◌, ◌^◌, ◌≤◌, ◌<◌, ◌≡◌, refl, ◌≢◌, ◌⊎◌, true, false, List, arith, ltb, le→ltb, length, add32,
}
use xdna1_npu_emulator.Regs.{bar_sram_size}
use xdna1_npu_emulator.State.{XdnaChannel, XdnaNpu, max_channels}
use xdna1_npu_emulator.Mailbox.Send.{
  header_size, message_header, usable_size, package_size, wraps, write_tail, is_full, deliver,
  xdna_mbox_send,
}
use xdna1_npu_emulator.Mailbox.Outside.{deliver-outside}
use xdna1_npu_emulator.Mailbox.Deliver.{Delivered, send_accepts, deliver-Delivered}
use xdna1_npu_emulator.Invariant.{ring_base, ring_size, RingAt, InRing, Safe}
use xdna1_npu_emulator.Invariant.Send.{ring_base_bound, ring_size_cases, write_tail_fits}

-- The bytes of an outgoing ring that the driver has yet to read, by offset.
abbrev pub IsUnread : ℕ → XdnaChannel → ℕ → Type 0
IsUnread i c x =
    ((c.i2x_head ≤ c.i2x_tail) × (c.i2x_head ≤ x) × (x < c.i2x_tail))
    ⊎ ((c.i2x_tail < c.i2x_head) × ((x < c.i2x_tail) ⊎ ((c.i2x_head ≤ x) × (x < ring_size i))))

-- What is sent on a channel whose rings are in their place and whose outgoing positions are in order.
module _ (i id opcode : ℕ) (payload : List ℕ) (s : XdnaNpu) (h : i < max_channels)
    (a : (s.chan i).active ≡ true) (ring : RingAt i (s.chan i)) (in_order : InRing i (s.chan i))
    (fits : length payload + header_size + 4 ≤ ring_size i)
    (room : is_full (s.chan i) (package_size payload) ≡ false) where
  small : length payload + header_size < 2 ^ 32
  small = omega (arith, ring_size_cases i)

  accepted_size : ltb (usable_size (s.chan i)) (package_size payload) ≡ false
  accepted_size =
      let size : (s.chan i).i2x_size ≡ ring_size i = ring.i2x_size in
      le→ltb (usable_size (s.chan i)) (package_size payload) (ground (arith, ring_size_cases i))

  place_fits : write_tail (s.chan i) (package_size payload) + package_size payload + 4 ≤ ring_size i
  place_fits = write_tail_fits i (s.chan i) (package_size payload) ring in_order accepted_size room

  pub is_sent : xdna_mbox_send i id opcode payload s ≡ (true, deliver i id opcode payload s)
  is_sent = send_accepts i id opcode payload s h a small accepted_size room

  pub ring_delivers :
      let r = xdna_mbox_send i id opcode payload s in
      let at = write_tail (s.chan i) (package_size payload) in
      (r.0 ≡ true)
      × Delivered i at (message_header (length payload) id opcode) payload s r.1
      × (at + header_size + length payload + 4 ≤ ring_size i)
  ring_delivers =
      let at = write_tail (s.chan i) (package_size payload) in
      let buf : (s.chan i).i2x_buf ≡ ring_base i + ring_size i = ring.i2x_buf in
      let inside : (s.chan i).i2x_buf + at + header_size + length payload ≤ bar_sram_size =
        omega (arith, place_fits, ring_base_bound i h, small) in
      rw is_sent (
        refl,
        deliver-Delivered i id opcode payload s h a small accepted_size room inside
            (omega (arith, place_fits, ring_size_cases i)),
        omega (arith, place_fits, small),
      )

module _ (i id opcode : ℕ) (payload : List ℕ) (s : XdnaNpu) (h : i < max_channels)
    (a : (s.chan i).active ≡ true) (v : Safe s)
    (fits : length payload + header_size + 4 ≤ ring_size i)
    (room : is_full (s.chan i) (package_size payload) ≡ false) where
  -- In a device that is in order, a message that fits into the ring of an active channel, and does
  -- not meet the driver's read position, is accepted: header and payload are read back from the ring, the tail moves past
  -- them, the status register is set, and the message ends before the last word of the ring.
  pub send_delivers :
      let r = xdna_mbox_send i id opcode payload s in
      let at = write_tail (s.chan i) (package_size payload) in
      (r.0 ≡ true)
      × Delivered i at (message_header (length payload) id opcode) payload s r.1
      × (at + header_size + length payload + 4 ≤ ring_size i)
  send_delivers =
      ring_delivers i id opcode payload s h a (v.0.rings i h a) (v.1.in_ring i h a) fits room

  -- Sending such a message leaves the unread bytes of the ring as they are, if the driver has read something
  -- (its position is not 0) or the message fits behind the tail.
  pub send_keeps_unread :
      (x : ℕ)
      → IsUnread i (s.chan i) x
      → ((s.chan i).i2x_head ≢ 0) ⊎ (wraps (s.chan i) (package_size payload) ≡ false)
      → let t = (xdna_mbox_send i id opcode payload s).1 in
        let at = (s.chan i).i2x_buf + x in t.sram at ≡ s.sram at
  send_keeps_unread x unread safe =
      rw (is_sent i id opcode payload s h a (v.0.rings i h a) (v.1.in_ring i h a) fits room)
        (deliver-outside i id opcode payload s ((s.chan i).i2x_buf + x) tombstone message)
    where
      buf : (s.chan i).i2x_buf ≡ ring_base i + ring_size i
      buf = (v.0.rings i h a).i2x_buf

      pkg : package_size payload ≡ header_size + length payload
      pkg = omega (arith, fits, ring_size_cases i)

      tombstone :
          (wraps (s.chan i) (package_size payload) ≡ false)
          ⊎ (((s.chan i).i2x_buf + x < add32 (s.chan i).i2x_buf (s.chan i).i2x_tail)
              ⊎ (add32 (s.chan i).i2x_buf (s.chan i).i2x_tail + 4 ≤ (s.chan i).i2x_buf + x))
      tombstone = ground (arith, ring_base_bound i h, ring_size_cases i, v.1.in_ring i h a, buf)

      message :
          ((s.chan i).i2x_buf + x
            < (s.chan i).i2x_buf + write_tail (s.chan i) (package_size payload))
          ⊎ ((s.chan i).i2x_buf
                + write_tail (s.chan i) (package_size payload)
                + header_size
                + length payload
              ≤ (s.chan i).i2x_buf + x)
      message = ground (arith, ring_base_bound i h, ring_size_cases i, v.1.in_ring i h a, buf, pkg)
