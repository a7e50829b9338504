-- ===== src/Invariant/Process.antt =====
-- The receiving loop keeps the invariants, and reads inside the incoming ring only.
use xdna1_npu_emulator.Prelude.{
  ℕ, zero, suc, ◌+◌, refl, inl, inr, not, ltb, leb, ◌==◌, Bool-cases, if_keeps, add32, le_value,
}
use xdna1_npu_emulator.Regs.{bar_sram_size, mbox_tombstone}
use xdna1_npu_emulator.State.{
  XdnaNpu, max_channels, log_error, log_warn, xdna_log, touch, xdna_sram_read32,
}
use xdna1_npu_emulator.Mem.{read_bytes}
use xdna1_npu_emulator.Mailbox.Send.{header_size}
use xdna1_npu_emulator.Mailbox.Process.{
  max_msg_per_kick, set_head, read_header, consume, take_message, Round, again, stop, is_bad_size,
  room, payload_limit, inspect, round, process_loop, xdna_mbox_process,
}
use xdna1_npu_emulator.Invariant.{Inv, Safe}
use xdna1_npu_emulator.Invariant.Basic.{
  update-WellFormed, update-RingsSafe, xdna_log-keeps, touch-Inv,
}
use xdna1_npu_emulator.Invariant.Mert.{handle-Inv}

-- The state that a round leaves, whether the loop goes on or not.
abbrev pub after : Round → XdnaNpu
after (again s) = s
after (stop s) = s

-- What every round keeps, the loop keeps.
pub process_loop-keeps :
    (P : XdnaNpu → Type 0) (idx : ℕ)
    → ((s : XdnaNpu) → P s → P (xdna_log log_error s))
    → ((s : XdnaNpu) → P s → P (after (round idx s)))
    → (n : ℕ) (s : XdnaNpu) → P s
    → P (process_loop n idx s)
unfolding process_loop
process_loop-keeps P idx log step zero s p =
    if_keeps P ((s.chan idx).x2i_head == (s.chan idx).x2i_tail) p (log s p)
process_loop-keeps P idx log step (suc n) s p =
    elim (Bool-cases ((s.chan idx).x2i_head == (s.chan idx).x2i_tail)) [
      | inl e ↦ rw (e, process_loop) p
      | inr e ↦
          rw (e, process_loop) (rest (round idx s) (step s p) (process_loop-keeps P idx log step n))
    ]
  where
    rest :
        (r : Round)
        → P (after r)
        → ((t : XdnaNpu) → P t → P (process_loop n idx t))
        → P (elim r [ again s' ↦ process_loop n idx s' | stop s' ↦ s' ])
    rest (again s') q ih = ih s' q
    rest (stop s') q ih = q

-- A round in whatever state the tests leave.
pub set_head-Inv : (idx head : ℕ) (s : XdnaNpu) → Inv s → Inv (set_head idx head s)
set_head-Inv idx head s w =
    update-WellFormed w idx (record (s.chan idx) { x2i_head = head })
      (record {
        active = refl;
        index = refl;
        x2i_buf = refl;
        x2i_size = refl;
        i2x_buf = refl;
        i2x_size = refl;
      })

pub set_head-Safe : (idx head : ℕ) (s : XdnaNpu) → Safe s → Safe (set_head idx head s)
set_head-Safe idx head s v = (
  set_head-Inv idx head s v.0,
  update-RingsSafe idx (record (s.chan idx) { x2i_head = head }) (λ h a. v.1.in_ring idx h a) v.1,
)

pub consume-Inv : (idx peek : ℕ) (s : XdnaNpu) → Inv s → Inv (consume idx peek s)
unfolding consume
consume-Inv idx peek s w =
    let ch = s.chan idx in
    let at = ch.x2i_buf + ch.x2i_head in
    let s' = touch at header_size s in
    set_head-Inv idx (add32 ch.x2i_head (add32 header_size peek)) (touch (at + header_size) peek s')
      (touch-Inv (at + header_size) peek s' (touch-Inv at header_size s w))

pub take_message-Inv : (idx peek : ℕ) (s : XdnaNpu) → Inv s → Inv (take_message idx peek s)
unfolding take_message
take_message-Inv idx peek s w =
    let at = (s.chan idx).x2i_buf + (s.chan idx).x2i_head in
    handle-Inv idx (read_header at s) (read_bytes s.sram (at + header_size) peek)
      (consume idx peek s) (consume-Inv idx peek s w)

pub log_error-Inv : (s : XdnaNpu) → Inv s → Inv (xdna_log log_error s)
log_error-Inv s w = xdna_log-keeps Inv log_error s w w

pub inspect-Inv : (idx peek : ℕ) (s : XdnaNpu) → Inv s → Inv (after (inspect idx peek s))
unfolding inspect
inspect-Inv idx peek s w =
    if_keeps (λ r. Inv (after r)) (peek == mbox_tombstone) (set_head-Inv idx 0 s w)
      (if_keeps (λ r. Inv (after r)) (is_bad_size peek) (log_error-Inv s w)
        (if_keeps (λ r. Inv (after r)) (ltb (room (s.chan idx)) (add32 header_size peek))
          (log_error-Inv s w)
          (if_keeps (λ r. Inv (after r)) (ltb payload_limit peek) (log_error-Inv s w)
            (take_message-Inv idx peek s w))))

pub read32-keeps {ℓ} :
    (P : ℕ × XdnaNpu → Type ℓ) (off : ℕ) (s : XdnaNpu)
    → P (0, s)
    → P (le_value (read_bytes s.sram off 4), touch off 4 s)
    → P (xdna_sram_read32 off s)
unfolding xdna_sram_read32
read32-keeps P off s p q = if_keeps P (ltb bar_sram_size (add32 off 4)) p q

pub round-Inv : (idx : ℕ) (s : XdnaNpu) → Inv s → Inv (after (round idx s))
unfolding round
round-Inv idx s w =
    if_keeps (λ r. Inv (after r)) (leb (s.chan idx).x2i_size (s.chan idx).x2i_head)
      (set_head-Inv idx 0 s w)
      (read32-keeps (λ r. Inv (after (inspect idx r.0 r.1))) at s (inspect-Inv idx 0 s w)
        (inspect-Inv idx (le_value (read_bytes s.sram at 4)) (touch at 4 s) (touch-Inv at 4 s w)))
  where
    at : ℕ
    at = add32 (s.chan idx).x2i_buf (s.chan idx).x2i_head

-- Whatever the driver has put into the ring, the loop leaves the device well formed.
pub process-Inv : (idx : ℕ) (s : XdnaNpu) → Inv s → Inv (xdna_mbox_process idx s)
unfolding xdna_mbox_process
process-Inv idx s w = if_keeps Inv (leb max_channels idx) w (
    if_keeps Inv (not (s.chan idx).active) (xdna_log-keeps Inv log_warn s w w)
      (process_loop-keeps Inv idx log_error-Inv (round-Inv idx) max_msg_per_kick s w))
