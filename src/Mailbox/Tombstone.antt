-- ===== src/Mailbox/Tombstone.antt =====
-- The word that `xdna_mbox_send` leaves at the end of the ring when a message wraps.
use xdna1_npu_emulator.Prelude.{
  ℕ, ◌+◌, ◌≤◌, ◌≡◌, refl, ap, ◌∙◌, inr, true, List, arith, le→ltb, length, add32, u32_bytes,
}
use xdna1_npu_emulator.Regs.{bar_sram_size, mbox_tombstone}
use xdna1_npu_emulator.Mem.{Mem, read_bytes, write_bytes}
use xdna1_npu_emulator.Mem.Laws.{read_bytes_agree, read_bytes-write_bytes}
use xdna1_npu_emulator.State.{XdnaChannel, XdnaNpu, xdna_sram_write32}
use xdna1_npu_emulator.Mailbox.Send.{
  header_size, message_header, package_size, wraps, write_tail, put_tombstone, put_message,
  set_tail, deliver,
}
use xdna1_npu_emulator.Mailbox.Deliver.{store-sram}
use xdna1_npu_emulator.Mailbox.Outside.{put_message-outside}
use xdna1_npu_emulator.Invariant.Send.{notify-keeps}

module _ (i id opcode : ℕ) (payload : List ℕ) (s : XdnaNpu)
    (wrapped : wraps (s.chan i) (package_size payload) ≡ true)
    (inside : (s.chan i).i2x_buf + (s.chan i).i2x_tail + 4 ≤ bar_sram_size)
    (before : header_size + length payload ≤ (s.chan i).i2x_tail) where
  abbrev c : XdnaChannel
  c = s.chan i

  abbrev pkg : ℕ
  pkg = package_size payload

  abbrev at : ℕ
  at = c.i2x_buf + c.i2x_tail

  abbrev marked : XdnaNpu
  marked = put_tombstone c pkg s

  marked-sram : marked.sram ≡ write_bytes s.sram at (u32_bytes mbox_tombstone)
  unfolding put_tombstone xdna_sram_write32
  marked-sram =
      let place : add32 c.i2x_buf c.i2x_tail ≡ at = omega (arith, inside) in
      let end : add32 at 4 ≡ at + 4 = omega (arith, inside) in
      rw (wrapped, place)
        (rw (end, le→ltb bar_sram_size (at + 4) inside)
          (store-sram at (u32_bytes mbox_tombstone) s inside))

  -- The message lies before the tombstone, which is still there after the delivery.
  pub deliver_tombstone :
      read_bytes (deliver i id opcode payload s).sram at 4 ≡ u32_bytes mbox_tombstone
  unfolding deliver
  deliver_tombstone =
      let hdr = message_header (length payload) id opcode in
      let start = c.i2x_buf + write_tail c pkg in
      let placed = put_message start hdr payload marked in
      let first : write_tail c pkg ≡ 0 = rw wrapped refl in
      let P : XdnaNpu → Type 0 = λ t. read_bytes t.sram at 4 ≡ u32_bytes mbox_tombstone in
      let p : P placed =
        read_bytes_agree placed.sram marked.sram at 4 (λ x l k.
          put_message-outside start hdr payload marked x (inr (omega (arith, l, first, before))))
        ∙ ap (λ (m : Mem). read_bytes m at 4) marked-sram
        ∙ read_bytes-write_bytes s.sram at (u32_bytes mbox_tombstone) in
      notify-keeps P i (set_tail i (add32 (write_tail c pkg) pkg) placed) p p
