-- ===== src/Invariant/ProcessSafe.antt =====
-- The receiving loop reads inside the incoming ring only.
use xdna1_npu_emulator.Prelude.{
  ℕ, ◌+◌, ◌≤◌, ◌<◌, ◌≡◌, inl, inr, true, false, not, arith, ltb, leb, ◌==◌, leb→lt, Bool-cases,
  if_keeps, if_elim, add32, le_value,
}
use xdna1_npu_emulator.Regs.{bar_sram_size, mbox_tombstone}
use xdna1_npu_emulator.Mem.{read_bytes}
use xdna1_npu_emulator.State.{
  XdnaChannel, XdnaNpu, max_channels, log_error, log_warn, xdna_log, xdna_sram_read32,
}
use xdna1_npu_emulator.Mailbox.Send.{header_size}
use xdna1_npu_emulator.Mailbox.Process.{
  max_msg_per_kick, read_header, consume, take_message, is_bad_size, room, payload_limit, inspect,
  round, xdna_mbox_process,
}
use xdna1_npu_emulator.Invariant.{ring_size, RingAt, Inv, Safe}
use xdna1_npu_emulator.Invariant.Basic.{xdna_log-keeps, touch_in}
use xdna1_npu_emulator.Invariant.Send.{ring_base_bound, ring_size_cases}
use xdna1_npu_emulator.Invariant.Mert.{handle-Safe}
use xdna1_npu_emulator.Invariant.Process.{after, process_loop-keeps, set_head-Safe, read32-keeps}

log_error-Safe : (s : XdnaNpu) → Safe s → Safe (xdna_log log_error s)
log_error-Safe s v = xdna_log-keeps Safe log_error s v v

-- What the first test of a round says of the channel.
pub record HeadInRing (idx : ℕ) (c : XdnaChannel) : Type 0 where
  pub ring : RingAt idx c
  pub head : c.x2i_head < c.x2i_size

head_in_ring :
    (idx : ℕ) (s : XdnaNpu)
    → idx < max_channels
    → leb (s.chan idx).x2i_size (s.chan idx).x2i_head ≡ false
    → Inv s
    → HeadInRing idx (s.chan idx)
head_in_ring idx s h e w = record { ring = w.rings idx h is_active; head = below }
  where
    below : (s.chan idx).x2i_head < (s.chan idx).x2i_size
    below = leb→lt (s.chan idx).x2i_size (s.chan idx).x2i_head e

    is_active : (s.chan idx).active ≡ true
    is_active = elim (Bool-cases (s.chan idx).active) [
      | inl a ↦ a
      | inr a ↦ absurd (omega (arith, w.closed idx h a, below))
    ]

module _ (idx peek : ℕ) (s : XdnaNpu) (h : idx < max_channels)
    (r : HeadInRing idx (s.chan idx)) where
  -- The sizes that pass both tests keep the whole message in the ring.
  message_in_ring :
      ltb (room (s.chan idx)) (add32 header_size peek) ≡ false
      → ltb payload_limit peek ≡ false
      → (s.chan idx).x2i_head + header_size + peek ≤ ring_size idx
  message_in_ring fits small = ground (arith, ring_size_cases idx, r.ring.x2i_size, r.head)

  pub consume-Safe :
      (s.chan idx).x2i_head + header_size + peek ≤ ring_size idx
      → Safe s
      → Safe (consume idx peek s)
  unfolding consume
  consume-Safe fits v =
      let ch = s.chan idx in
      let at = ch.x2i_buf + ch.x2i_head in
      let end : at + header_size + peek ≤ bar_sram_size =
        omega (arith, ring_base_bound idx h, r.ring.x2i_buf) in
      rw (touch_in at header_size s (omega arith), touch_in (at + header_size) peek s end)
        (set_head-Safe idx (add32 ch.x2i_head (add32 header_size peek)) s v)

  inspect-Safe : Safe s → Safe (after (inspect idx peek s))
  unfolding inspect take_message
  inspect-Safe v =
      if_keeps (λ q. Safe (after q)) (peek == mbox_tombstone) (set_head-Safe idx 0 s v)
        (if_keeps (λ q. Safe (after q)) (is_bad_size peek) (log_error-Safe s v)
          (if_elim (λ q. Safe (after q)) (ltb (room (s.chan idx)) (add32 header_size peek))
            (λ _. log_error-Safe s v)
            (λ fits.
              if_elim (λ q. Safe (after q)) (ltb payload_limit peek) (λ _. log_error-Safe s v)
                (λ small.
                  let at = (s.chan idx).x2i_buf + (s.chan idx).x2i_head in
                  handle-Safe idx (read_header at s) (read_bytes s.sram (at + header_size) peek)
                    (consume idx peek s) (consume-Safe (message_in_ring fits small) v)))))

round-Safe : (idx : ℕ) (s : XdnaNpu) → idx < max_channels → Safe s → Safe (after (round idx s))
unfolding round xdna_sram_read32
round-Safe idx s h v =
    if_elim (λ r. Safe (after r)) (leb (s.chan idx).x2i_size (s.chan idx).x2i_head)
      (λ _. set_head-Safe idx 0 s v) (λ e. peeked (head_in_ring idx s h e v.0))
  where
    at : ℕ
    at = add32 (s.chan idx).x2i_buf (s.chan idx).x2i_head

    inside : HeadInRing idx (s.chan idx) → at + 4 ≤ bar_sram_size
    inside r =
        ground (
          arith,
          ring_base_bound idx h,
          ring_size_cases idx,
          r.ring.x2i_buf,
          r.ring.x2i_size,
          r.head,
        )

    peeked :
        HeadInRing idx (s.chan idx)
        → Safe (after (let (peek, s') = xdna_sram_read32 at s in inspect idx peek s'))
    peeked r =
        read32-keeps (λ q. Safe (after (inspect idx q.0 q.1))) at s (inspect-Safe idx 0 s h r v)
          (rw (touch_in at 4 s (inside r))
            (inspect-Safe idx (le_value (read_bytes s.sram at 4)) s h r v))

-- Processing a channel keeps the device well formed, the positions of the outgoing rings inside
-- them, and every access inside the SRAM, whatever the incoming ring holds.
pub process-Safe : (idx : ℕ) (s : XdnaNpu) → Safe s → Safe (xdna_mbox_process idx s)
unfolding xdna_mbox_process
process-Safe idx s v =
    if_elim Safe (leb max_channels idx) (λ _. v)
      λ h. if_keeps Safe (not (s.chan idx).active) (xdna_log-keeps Safe log_warn s v v) (
        process_loop-keeps Safe idx log_error-Safe
          (λ t. round-Safe idx t (leb→lt max_channels idx h)) max_msg_per_kick s v)
