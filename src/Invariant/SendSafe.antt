-- ===== src/Invariant/SendSafe.antt =====
-- `xdna_mbox_send` stays inside the SRAM while the read position of the driver lies in the ring.
use xdna1_npu_emulator.Prelude.{
  ℕ, ◌+◌, ◌^◌, ◌≤◌, ◌<◌, ◌≡◌, refl, sym, ◌∙◌, Bool, true, false, not, List, arith, ltb, leb, leb→lt,
  if_keeps, if_elim, length, add32,
}
use xdna1_npu_emulator.Regs.{bar_sram_size, mbox_tombstone}
use xdna1_npu_emulator.State.{XdnaChannel, XdnaNpu, max_channels, log_error}
use xdna1_npu_emulator.Mailbox.Send.{
  header_size, message_header, usable_size, package_size, wraps, write_tail, is_full, put_tombstone,
  put_message, set_tail, deliver, xdna_mbox_send,
}
use xdna1_npu_emulator.Invariant.{ring_size, RingAt, InRing, Safe}
use xdna1_npu_emulator.Invariant.Basic.{update-RingsSafe, xdna_log-keeps, write32-Safe}
use xdna1_npu_emulator.Invariant.Send.{
  ring_base_bound, ring_size_cases, write_tail_fits, put_tombstone-chan, put_message-chan,
  put_message-Safe, notify-keeps, set_tail-Inv,
}

-- The tombstone goes to the tail, which lies in the ring.
put_tombstone-Safe :
    (i : ℕ) (pkg : ℕ) (s : XdnaNpu)
    → i < max_channels
    → (s.chan i).active ≡ true
    → Safe s
    → Safe (put_tombstone (s.chan i) pkg s)
unfolding put_tombstone
put_tombstone-Safe i pkg s h a v =
    if_keeps Safe (wraps (s.chan i) pkg)
      (write32-Safe (add32 (s.chan i).i2x_buf (s.chan i).i2x_tail) mbox_tombstone s
        (inside (v.0.rings i h a) (v.1.in_ring i h a)) v)
      v
  where
    inside :
        RingAt i (s.chan i)
        → InRing i (s.chan i)
        → add32 (s.chan i).i2x_buf (s.chan i).i2x_tail + 4 ≤ bar_sram_size
    inside r b = ground (arith, ring_base_bound i h)

-- Moving the tail to a position in the ring.
pub set_tail-Safe :
    (i tail : ℕ) (s : XdnaNpu)
    → ((s.chan i).active ≡ true → InRing i (record (s.chan i) { i2x_tail = tail }))
    → Safe s
    → Safe (set_tail i tail s)
set_tail-Safe i tail s h v = (
  set_tail-Inv i tail s v.0,
  update-RingsSafe i (record (s.chan i) { i2x_tail = tail; intr = 1 }) (λ _. h) v.1,
)

deliver-Safe :
    (i id opcode : ℕ) (payload : List ℕ) (s : XdnaNpu)
    → i < max_channels
    → (s.chan i).active ≡ true
    → length payload + header_size < 2 ^ 32
    → ltb (usable_size (s.chan i)) (package_size payload) ≡ false
    → is_full (s.chan i) (package_size payload) ≡ false
    → Safe s
    → Safe (deliver i id opcode payload s)
unfolding deliver
deliver-Safe i id opcode payload s h a small fits room v =
    let c = s.chan i in
    let pkg = package_size payload in
    let r : RingAt i c = v.0.rings i h a in
    let b : InRing i c = v.1.in_ring i h a in
    let at = c.i2x_buf + write_tail c pkg in
    let hdr = message_header (length payload) id opcode in
    let s' = put_tombstone c pkg s in
    let placed = put_message at hdr payload s' in
    let tail = add32 (write_tail c pkg) pkg in
    let end : write_tail c pkg + pkg + 4 ≤ ring_size i = write_tail_fits i c pkg r b fits room in
    let inside : at + header_size + length payload ≤ bar_sram_size =
      omega (arith, ring_base_bound i h, r.i2x_buf) in
    let same : placed.chan ≡ s.chan =
      put_message-chan at hdr payload s' ∙ put_tombstone-chan c pkg s in
    let kept : Safe placed =
      put_message-Safe at hdr payload s' inside (put_tombstone-Safe i pkg s h a v) in
    let moved : InRing i (record (placed.chan i) { i2x_tail = tail }) =
      (rw same b.0, tail_in i (write_tail c pkg) pkg end) in
    let tailed : Safe (set_tail i tail placed) = set_tail-Safe i tail placed (λ _. moved) kept in
    notify-keeps Safe i (set_tail i tail placed) tailed tailed
  where
    tail_in : (j t pkg : ℕ) → t + pkg + 4 ≤ ring_size j → add32 t pkg + 4 ≤ ring_size j
    tail_in j t pkg e = ground (arith, ring_size_cases j)

-- While the driver's read position lies in the ring, sending stays in the ring and in the SRAM.
pub send-Safe :
    (i id opcode : ℕ) (payload : List ℕ) (s : XdnaNpu)
    → length payload + header_size < 2 ^ 32
    → Safe s
    → Safe (xdna_mbox_send i id opcode payload s).1
unfolding xdna_mbox_send
send-Safe i id opcode payload s small v =
    if_elim P (leb max_channels i) (λ _. v)
      λ h.
        if_elim P (not c.active) (λ _. v)
          λ a.
            if_elim P (ltb (usable_size c) pkg) (λ _. xdna_log-keeps Safe log_error s v v)
              λ fits.
                if_elim P (is_full c pkg)
                  (λ _.
                    let v' : Safe (put_tombstone c pkg s) =
                      put_tombstone-Safe i pkg s (leb→lt max_channels i h) (on c.active a) v in
                    xdna_log-keeps Safe log_error (put_tombstone c pkg s) v' v')
                  λ room.
                    deliver-Safe i id opcode payload s (leb→lt max_channels i h) (on c.active a)
                      small fits room v
  where
    c : XdnaChannel
    c = s.chan i

    pkg : ℕ
    pkg = package_size payload

    P : Bool × XdnaNpu → Type 0
    P r = Safe r.1

    on : (b : Bool) → not b ≡ false → b ≡ true
    on true e = refl
    on false e = sym e
