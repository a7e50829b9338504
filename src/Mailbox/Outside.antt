-- ===== src/Mailbox/Outside.antt =====
-- The bytes that `xdna_mbox_send` leaves alone.
use xdna1_npu_emulator.Prelude.{
  ℕ, ◌+◌, ◌≤◌, ◌<◌, ◌≡◌, refl, ◌∙◌, ◌⊎◌, inl, inr, false, List, arith, ltb, ◌==◌, if_keeps, length,
  add32, u32_bytes,
}
use xdna1_npu_emulator.Regs.{bar_sram_size, mbox_tombstone}
use xdna1_npu_emulator.Mem.Laws.{write_bytes_outside}
use xdna1_npu_emulator.State.{
  XdnaMsgHeader, XdnaChannel, XdnaNpu, in_sram, store, xdna_sram_write32,
}
use xdna1_npu_emulator.Mailbox.Send.{
  header_size, header_bytes, message_header, package_size, wraps, write_tail, put_tombstone,
  put_message, set_tail, deliver,
}
use xdna1_npu_emulator.Invariant.Send.{notify-keeps}

pub store-outside :
    (off : ℕ) (bs : List ℕ) (s : XdnaNpu) (x : ℕ)
    → (x < off) ⊎ (off + length bs ≤ x)
    → (store off bs s).sram x ≡ s.sram x
unfolding store
store-outside off bs s x h =
    if_keeps (λ (t : XdnaNpu). t.sram x ≡ s.sram x) (in_sram off (length bs))
      (write_bytes_outside s.sram off bs x h) refl

pub put_tombstone-outside :
    (c : XdnaChannel) (pkg : ℕ) (s : XdnaNpu) (x : ℕ)
    → (wraps c pkg ≡ false)
      ⊎ ((x < add32 c.i2x_buf c.i2x_tail) ⊎ (add32 c.i2x_buf c.i2x_tail + 4 ≤ x))
    → (put_tombstone c pkg s).sram x ≡ s.sram x
unfolding put_tombstone xdna_sram_write32
put_tombstone-outside c pkg s x (inl e) = rw e
put_tombstone-outside c pkg s x (inr h) =
    if_keeps (λ (t : XdnaNpu). t.sram x ≡ s.sram x) (wraps c pkg)
      (if_keeps (λ (t : XdnaNpu). t.sram x ≡ s.sram x)
        (ltb bar_sram_size (add32 (add32 c.i2x_buf c.i2x_tail) 4)) refl
        (store-outside (add32 c.i2x_buf c.i2x_tail) (u32_bytes mbox_tombstone) s x h))
      refl

pub put_message-outside :
    (at : ℕ) (hdr : XdnaMsgHeader) (payload : List ℕ) (s : XdnaNpu) (x : ℕ)
    → (x < at) ⊎ (at + header_size + length payload ≤ x)
    → (put_message at hdr payload s).sram x ≡ s.sram x
unfolding put_message
put_message-outside at hdr payload s x h =
    if_keeps (λ (t : XdnaNpu). t.sram x ≡ s.sram x) (length payload == 0) first
      (store-outside (at + header_size) payload (store at (header_bytes hdr) s) x (ground arith)
        ∙ first)
  where
    first : (store at (header_bytes hdr) s).sram x ≡ s.sram x
    first = store-outside at (header_bytes hdr) s x (ground arith)

-- A delivery writes the message and, where it wraps, the tombstone at the old tail.
pub deliver-outside :
    (i id opcode : ℕ) (payload : List ℕ) (s : XdnaNpu) (x : ℕ)
    → let c = s.chan i in
      let pkg = package_size payload in
      let at = c.i2x_buf + write_tail c pkg in
      (wraps c pkg ≡ false)
        ⊎ ((x < add32 c.i2x_buf c.i2x_tail) ⊎ (add32 c.i2x_buf c.i2x_tail + 4 ≤ x))
      → (x < at) ⊎ (at + header_size + length payload ≤ x)
      → (deliver i id opcode payload s).sram x ≡ s.sram x
unfolding deliver
deliver-outside i id opcode payload s x tomb msg =
    let c = s.chan i in
    let pkg = package_size payload in
    let at = c.i2x_buf + write_tail c pkg in
    let hdr = message_header (length payload) id opcode in
    let s' = put_tombstone c pkg s in
    let same : (put_message at hdr payload s').sram x ≡ s.sram x =
      put_message-outside at hdr payload s' x msg ∙ put_tombstone-outside c pkg s x tomb in
    notify-keeps (λ (t : XdnaNpu). t.sram x ≡ s.sram x) i
      (set_tail i (add32 (write_tail c pkg) pkg) (put_message at hdr payload s')) same same
