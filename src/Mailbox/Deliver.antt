-- ===== src/Mailbox/Deliver.antt =====
-- What `xdna_mbox_send` puts where: the message that the driver finds, and when it is refused.
use xdna1_npu_emulator.Prelude.{
  ℕ, suc, ◌+◌, ◌^◌, ◌≤◌, ◌<◌, ◌≡◌, refl, sym, ap, ◌∙◌, subst, inl, true, false, List, [], ◌∷◌,
  arith, ltb, le→leb, lt→leb, eq→==, ne→==, length, add32, add64,
}
use xdna1_npu_emulator.Regs.{bar_sram_size}
use xdna1_npu_emulator.Mem.{Mem, read_bytes, write_bytes}
use xdna1_npu_emulator.Mem.Laws.{read_bytes-write_bytes, read_bytes-write_bytes_disjoint}
use xdna1_npu_emulator.State.{
  XdnaStats, XdnaMsgHeader, XdnaChannel, XdnaNpu, max_channels, update, store, xdna_sram_write32,
}
use xdna1_npu_emulator.Mailbox.Send.{
  header_size, header_bytes, message_header, usable_size, package_size, write_tail, is_full,
  put_tombstone, put_message, set_tail, deliver, xdna_mbox_send,
}
use xdna1_npu_emulator.Invariant.Send.{put_tombstone-chan, put_message-chan, notify-keeps}

-- The message lies at `at`: the header and the payload behind it.
pub record MessageAt (at : ℕ) (hdr : XdnaMsgHeader) (payload : List ℕ) (m : Mem) : Type 0 where
  pub header : read_bytes m at header_size ≡ header_bytes hdr
  pub body : read_bytes m (at + header_size) (length payload) ≡ payload

pub store-sram :
    (off : ℕ) (bs : List ℕ) (s : XdnaNpu)
    → off + length bs ≤ bar_sram_size
    → (store off bs s).sram ≡ write_bytes s.sram off bs
unfolding store
store-sram off bs s h = rw (le→leb _ _ h)

-- A message that fits into the SRAM is read back whole.
put_message-MessageAt :
    (at : ℕ) (hdr : XdnaMsgHeader) (payload : List ℕ) (s : XdnaNpu)
    → at + header_size + length payload ≤ bar_sram_size
    → MessageAt at hdr payload (put_message at hdr payload s).sram
unfolding put_message
put_message-MessageAt at hdr [] s h =
    rw (store-sram at (header_bytes hdr) s (omega arith)) (record {
      header = read_bytes-write_bytes s.sram at (header_bytes hdr);
      body = unfold read_bytes in refl;
    })
put_message-MessageAt at hdr (b ∷ bs) s h =
    let s' = store at (header_bytes hdr) s in
    let m = write_bytes s.sram at (header_bytes hdr) in
    let first : s'.sram ≡ m = store-sram at (header_bytes hdr) s (omega arith) in
    rw (ne→== (suc (length bs)) 0 (omega arith)) (
      rw (store-sram (at + header_size) (b ∷ bs) s' (omega arith)) (
        rw first (record {
          header =
              read_bytes-write_bytes_disjoint m (at + header_size) (b ∷ bs) at header_size
                (inl (omega arith))
              ∙ read_bytes-write_bytes s.sram at (header_bytes hdr);
          body = read_bytes-write_bytes m (at + header_size) (b ∷ bs);
        })))

-- What the driver sees after a message of `len` payload bytes was placed at `at` of the ring.
pub record Delivered (i at : ℕ) (hdr : XdnaMsgHeader) (payload : List ℕ) (s t : XdnaNpu)
    : Type 0 where
  pub message : MessageAt ((s.chan i).i2x_buf + at) hdr payload t.sram
  pub tail : (t.chan i).i2x_tail ≡ at + header_size + length payload
  pub head : (t.chan i).i2x_head ≡ (s.chan i).i2x_head
  pub status : (t.chan i).intr ≡ 1
  pub counted : t.stats.mbox_msgs_out ≡ add64 s.stats.mbox_msgs_out 1

put_message-stats :
    (at : ℕ) (hdr : XdnaMsgHeader) (payload : List ℕ) (s : XdnaNpu)
    → (put_message at hdr payload s).stats ≡ s.stats
unfolding put_message store
put_message-stats at hdr payload s = ground arith

put_tombstone-stats :
    (c : XdnaChannel) (pkg : ℕ) (s : XdnaNpu) → (put_tombstone c pkg s).stats ≡ s.stats
unfolding put_tombstone xdna_sram_write32 store
put_tombstone-stats c pkg s = ground arith

module _ (i id opcode : ℕ) (payload : List ℕ) (s : XdnaNpu) (h : i < max_channels)
    (a : (s.chan i).active ≡ true) (small : length payload + header_size < 2 ^ 32)
    (fits : ltb (usable_size (s.chan i)) (package_size payload) ≡ false)
    (room : is_full (s.chan i) (package_size payload) ≡ false) where
  pub send_accepts : xdna_mbox_send i id opcode payload s ≡ (true, deliver i id opcode payload s)
  unfolding xdna_mbox_send
  send_accepts = rw (lt→leb max_channels i h, a, fits, room)

  abbrev place : ℕ
  place = write_tail (s.chan i) (package_size payload)

  abbrev sent_header : XdnaMsgHeader
  sent_header = message_header (length payload) id opcode

  -- The state after the copies.
  abbrev placed : XdnaNpu
  placed =
      put_message ((s.chan i).i2x_buf + place) sent_header payload
        (put_tombstone (s.chan i) (package_size payload) s)

  placed-chan : placed.chan ≡ s.chan
  placed-chan =
      put_message-chan ((s.chan i).i2x_buf + place) sent_header payload
        (put_tombstone (s.chan i) (package_size payload) s)
      ∙ put_tombstone-chan (s.chan i) (package_size payload) s

  placed-stats : placed.stats ≡ s.stats
  placed-stats =
      put_message-stats ((s.chan i).i2x_buf + place) sent_header payload
        (put_tombstone (s.chan i) (package_size payload) s)
      ∙ put_tombstone-stats (s.chan i) (package_size payload) s

  -- A message that ends inside the SRAM is there, whatever lies in the ring.
  pub deliver-Delivered :
      (s.chan i).i2x_buf + place + header_size + length payload ≤ bar_sram_size
      → place + package_size payload < 2 ^ 32
      → Delivered i place sent_header payload s (deliver i id opcode payload s)
  unfolding deliver
  deliver-Delivered inside no_wrap =
      notify-keeps (Delivered i place sent_header payload s) i
        (set_tail i (add32 place (package_size payload)) placed) (seen _ refl refl refl)
        (seen _ refl refl refl)
    where
      moved : XdnaChannel
      moved = record (placed.chan i) { i2x_tail = add32 place (package_size payload); intr = 1 }

      seen :
          (t : XdnaNpu)
          → t.sram ≡ placed.sram
          → t.chan ≡ update placed.chan i moved
          → t.stats.mbox_msgs_out ≡ add64 placed.stats.mbox_msgs_out 1
          → Delivered i place sent_header payload s t
      seen t em ec es =
          let at_i : t.chan i ≡ moved =
            ap (λ (f : ℕ → XdnaChannel). f i) ec ∙ (rw (eq→== i i refl)) in
          record {
            message = subst (MessageAt ((s.chan i).i2x_buf + place) sent_header payload) (sym em) (
                put_message-MessageAt ((s.chan i).i2x_buf + place) sent_header payload
                  (put_tombstone (s.chan i) (package_size payload) s) inside);
            tail = ap (λ (c : XdnaChannel). c.i2x_tail) at_i ∙ omega arith;
            head =
                ap (λ (c : XdnaChannel). c.i2x_head) at_i
                ∙ ap (λ (f : ℕ → XdnaChannel). (f i).i2x_head) placed-chan;
            status = ap (λ (c : XdnaChannel). c.intr) at_i;
            counted = es ∙ ap (λ (x : XdnaStats). add64 x.mbox_msgs_out 1) placed-stats;
          }
