-- ===== src/Mailbox/Skipped.antt =====
-- src/xdna_mailbox.c, `xdna_mbox_process`: a tombstone at the head sends the device back to the start
-- of the ring.
use xdna1_npu_emulator.Prelude.{
  ℕ, suc, ◌+◌, ◌≤◌, ◌<◌, ◌≡◌, refl, ◌∙◌, ◌≢◌, true, List, arith, le→ltb, lt→leb, ne→==, length,
  add32, u32_bytes,
}
use xdna1_npu_emulator.State.{XdnaMsgHeader, XdnaNpu, max_channels, xdna_sram_read32}
use xdna1_npu_emulator.Mailbox.Process.{
  max_msg_per_kick, set_head, consume, again, inspect, round, process_loop, xdna_mbox_process,
}
use xdna1_npu_emulator.Mailbox.Incoming.{AtHead, loop_handles}
use xdna1_npu_emulator.Invariant.{ring_size, Inv}
use xdna1_npu_emulator.Regs.{bar_sram_size, mbox_tombstone}
use xdna1_npu_emulator.Mem.{read_bytes}
use xdna1_npu_emulator.Mert.{xdna_mert_handle}
use xdna1_npu_emulator.Mailbox.Send.{header_size}
use xdna1_npu_emulator.Invariant.Basic.{touch_in}
use xdna1_npu_emulator.Invariant.Send.{ring_base_bound}

-- A tombstone lies at the head of the incoming ring of the active channel `i`, which is not empty.
pub record HeadMarked (i : ℕ) (s : XdnaNpu) : Type 0 where
  pub channel : i < max_channels
  pub active : (s.chan i).active ≡ true
  pub word :
      read_bytes s.sram ((s.chan i).x2i_buf + (s.chan i).x2i_head) 4 ≡ u32_bytes mbox_tombstone
  pub fits : (s.chan i).x2i_head + 4 ≤ ring_size i
  pub unread : (s.chan i).x2i_head ≢ (s.chan i).x2i_tail

module _ (i : ℕ) (s : XdnaNpu) (w : Inv s) (q : HeadMarked i s) where
  bound : (s.chan i).x2i_buf + (s.chan i).x2i_head + 4 ≤ bar_sram_size
  bound = omega (arith, (w.rings i q.channel q.active).x2i_buf, ring_base_bound i q.channel, q.fits)

  peeked : xdna_sram_read32 (add32 (s.chan i).x2i_buf (s.chan i).x2i_head) s ≡ (mbox_tombstone, s)
  unfolding xdna_sram_read32
  peeked =
      let a = (s.chan i).x2i_buf + (s.chan i).x2i_head in
      let place : add32 (s.chan i).x2i_buf (s.chan i).x2i_head ≡ a = omega (arith, bound) in
      let end : add32 a 4 ≡ a + 4 = omega (arith, bound) in
      rw (place) (rw (end, le→ltb bar_sram_size (a + 4) bound, touch_in a 4 s bound, q.word) refl)

  round_skips : round i s ≡ again (set_head i 0 s)
  unfolding round inspect
  round_skips =
      let r = w.rings i q.channel q.active in
      rw
        (lt→leb (s.chan i).x2i_size (s.chan i).x2i_head (omega (arith, r.x2i_size, q.fits)), peeked)
        refl

  loop_skips : (n : ℕ) → process_loop (suc n) i s ≡ process_loop n i (set_head i 0 s)
  unfolding process_loop
  loop_skips n =
      rw (process_loop, ne→== (s.chan i).x2i_head (s.chan i).x2i_tail q.unread, round_skips) refl

  starts : xdna_mbox_process i s ≡ process_loop max_msg_per_kick i s
  unfolding xdna_mbox_process
  starts = rw (lt→leb max_channels i q.channel, q.active) refl

  -- A kick goes back to the start of the ring, and takes the message there.
  pub process_skips :
      (hdr : XdnaMsgHeader) (payload : List ℕ)
      → let u = set_head i 0 s in
        Inv u
        → AtHead i hdr payload u
        → (u.chan i).x2i_tail ≡ (u.chan i).x2i_head + header_size + length payload
        → xdna_mbox_process i s ≡ xdna_mert_handle i hdr payload (consume i (length payload) u)
  process_skips hdr payload wu qu last =
      starts ∙ loop_skips 255 ∙ loop_handles i hdr payload (set_head i 0 s) wu qu last 253
