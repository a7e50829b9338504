-- ===== src/Invariant/Send.antt =====
-- `xdna_mbox_send` keeps the invariants, and writes inside the outgoing ring only.
use xdna1_npu_emulator.Prelude.{
  ℕ, ◌+◌, ◌*◌, ◌≤◌, ◌<◌, ◌≡◌, refl, ◌∙◌, ◌⊎◌, Bool, false, not, List, arith, ltb, leb, ◌==◌,
  if_keeps, length, add32, add64, u32_bytes,
}
use xdna1_npu_emulator.Regs.{bar_sram_size, mbox_tombstone}
use xdna1_npu_emulator.State.{
  irq, XdnaMsgHeader, XdnaChannel, XdnaNpu, max_channels, log_error, emit, in_sram, store,
  xdna_sram_write32,
}
use xdna1_npu_emulator.Mailbox.Send.{
  header_size, header_bytes, message_header, usable_size, package_size, wraps, write_tail, is_full,
  put_tombstone, put_message, set_tail, notify, deliver, xdna_mbox_send,
}
use xdna1_npu_emulator.Invariant.{ring_base, ring_size, RingAt, Inv, InRing, Safe}
use xdna1_npu_emulator.Invariant.Basic.{
  update-WellFormed, xdna_log-keeps, store-Inv, store-Safe, write32-Inv,
}

-- The rings of a channel end inside the SRAM.
pub ring_base_bound : (i : ℕ) → i < max_channels → ring_base i + 2 * ring_size i ≤ bar_sram_size
ring_base_bound i h = ground arith

pub ring_size_cases : (i : ℕ) → (ring_size i ≡ 0x1000) ⊎ (ring_size i ≡ 0x2000)
ring_size_cases i = ground arith

-- A message that is accepted ends before the last word of the ring.
pub write_tail_fits :
    (i : ℕ) (c : XdnaChannel) (pkg : ℕ)
    → RingAt i c
    → InRing i c
    → ltb (usable_size c) pkg ≡ false
    → is_full c pkg ≡ false
    → write_tail c pkg + pkg + 4 ≤ ring_size i
write_tail_fits i c pkg r b fits room = ground (arith, ring_size_cases i)

pub store-chan : (off : ℕ) (bs : List ℕ) (s : XdnaNpu) → (store off bs s).chan ≡ s.chan
unfolding store
store-chan off bs s =
    if_keeps (λ (t : XdnaNpu). t.chan ≡ s.chan) (in_sram off (length bs)) refl refl

pub put_tombstone-chan :
    (c : XdnaChannel) (pkg : ℕ) (s : XdnaNpu) → (put_tombstone c pkg s).chan ≡ s.chan
unfolding put_tombstone xdna_sram_write32
put_tombstone-chan c pkg s =
    if_keeps (λ (t : XdnaNpu). t.chan ≡ s.chan) (wraps c pkg)
      (if_keeps (λ (t : XdnaNpu). t.chan ≡ s.chan)
        (ltb bar_sram_size (add32 (add32 c.i2x_buf c.i2x_tail) 4)) refl
        (store-chan (add32 c.i2x_buf c.i2x_tail) (u32_bytes mbox_tombstone) s))
      refl

pub put_message-chan :
    (at : ℕ) (hdr : XdnaMsgHeader) (payload : List ℕ) (s : XdnaNpu)
    → (put_message at hdr payload s).chan ≡ s.chan
unfolding put_message
put_message-chan at hdr payload s =
    if_keeps (λ (t : XdnaNpu). t.chan ≡ s.chan) (length payload == 0) first
      (store-chan (at + header_size) payload (store at (header_bytes hdr) s) ∙ first)
  where
    first : (store at (header_bytes hdr) s).chan ≡ s.chan
    first = store-chan at (header_bytes hdr) s

pub put_tombstone-Inv :
    (c : XdnaChannel) (pkg : ℕ) (s : XdnaNpu) → Inv s → Inv (put_tombstone c pkg s)
unfolding put_tombstone
put_tombstone-Inv c pkg s w =
    if_keeps Inv (wraps c pkg) (write32-Inv (add32 c.i2x_buf c.i2x_tail) mbox_tombstone s w) w

pub put_message-Inv :
    (at : ℕ) (hdr : XdnaMsgHeader) (payload : List ℕ) (s : XdnaNpu)
    → Inv s
    → Inv (put_message at hdr payload s)
unfolding put_message
put_message-Inv at hdr payload s w =
    if_keeps Inv (length payload == 0) first
      (store-Inv (at + header_size) payload (store at (header_bytes hdr) s) first)
  where
    first : Inv (store at (header_bytes hdr) s)
    first = store-Inv at (header_bytes hdr) s w

pub put_message-Safe :
    (at : ℕ) (hdr : XdnaMsgHeader) (payload : List ℕ) (s : XdnaNpu)
    → at + header_size + length payload ≤ bar_sram_size
    → Safe s
    → Safe (put_message at hdr payload s)
unfolding put_message
put_message-Safe at hdr payload s h w =
    if_keeps Safe (length payload == 0) first
      (store-Safe (at + header_size) payload (store at (header_bytes hdr) s) (omega arith) first)
  where
    first : Safe (store at (header_bytes hdr) s)
    first = store-Safe at (header_bytes hdr) s (omega arith) w

pub notify-keeps {ℓ} :
    (P : XdnaNpu → Type ℓ) (i : ℕ) (s : XdnaNpu)
    → P s
    → P (record (emit (irq (s.chan i).index) s) {
      stats = record s.stats { irqs_raised = add64 s.stats.irqs_raised 1 };
    })
    → P (notify i s)
unfolding notify
notify-keeps P i s p q = if_keeps P s.ops.raise_irq q p

pub set_tail-Inv : (i tail : ℕ) (s : XdnaNpu) → Inv s → Inv (set_tail i tail s)
set_tail-Inv i tail s w =
    update-WellFormed w i (record (s.chan i) { i2x_tail = tail; intr = 1 })
      (record {
        active = refl;
        index = refl;
        x2i_buf = refl;
        x2i_size = refl;
        i2x_buf = refl;
        i2x_size = refl;
      })

pub deliver-Inv :
    (i id opcode : ℕ) (payload : List ℕ) (s : XdnaNpu) → Inv s → Inv (deliver i id opcode payload s)
unfolding deliver
deliver-Inv i id opcode payload s w =
    let c = s.chan i in
    let pkg = package_size payload in
    let at = c.i2x_buf + write_tail c pkg in
    let hdr = message_header (length payload) id opcode in
    let placed = put_message at hdr payload (put_tombstone c pkg s) in
    let tail = add32 (write_tail c pkg) pkg in
    let tailed : Inv (set_tail i tail placed) =
      set_tail-Inv i tail placed
        (put_message-Inv at hdr payload (put_tombstone c pkg s) (put_tombstone-Inv c pkg s w)) in
    notify-keeps Inv i (set_tail i tail placed) tailed tailed

-- Sending keeps the invariant, whatever the positions of the ring are.
pub send-Inv :
    (i id opcode : ℕ) (payload : List ℕ) (s : XdnaNpu)
    → Inv s
    → Inv (xdna_mbox_send i id opcode payload s).1
unfolding xdna_mbox_send
send-Inv i id opcode payload s w = if_keeps P (leb max_channels i) w (
    if_keeps P (not c.active) w (
      if_keeps P (ltb (usable_size c) pkg) (xdna_log-keeps Inv log_error s w w) (
        if_keeps P (is_full c pkg)
          (xdna_log-keeps Inv log_error (put_tombstone c pkg s) (put_tombstone-Inv c pkg s w)
            (put_tombstone-Inv c pkg s w))
          (deliver-Inv i id opcode payload s w))))
  where
    c : XdnaChannel
    c = s.chan i

    pkg : ℕ
    pkg = package_size payload

    P : Bool × XdnaNpu → Type 0
    P r = Inv r.1
