-- ===== src/Driver/Receive/Find.antt =====
-- tests/test_boot.c against src/xdna_mailbox.c: the driver's search in an outgoing
-- ring, from a position where a message lies.
use xdna1_npu_emulator.Prelude.{
  ℕ, suc, ◌+◌, ◌^◌, ◌≤◌, ◌<◌, ◌≡◌, refl, sym, ap, ◌∙◌, ◌≢◌, true, false, some, List, arith, ◌==◌,
  eq→==, ne→==, length, add32, le_value, le_value-u32_bytes,
}
use xdna1_npu_emulator.Regs.{bar_sram, bar_mbox, bar_sram_size, mbox_i2x_head_off, mbox_tombstone}
use xdna1_npu_emulator.Mem.{read_bytes}
use xdna1_npu_emulator.State.{XdnaMsgHeader, XdnaNpu, max_channels}
use xdna1_npu_emulator.Device.{xdna_npu_mmio_read_buf}
use xdna1_npu_emulator.Mailbox.Send.{header_size}
use xdna1_npu_emulator.Mailbox.{write_chan_reg}
use xdna1_npu_emulator.Mailbox.Deliver.{MessageAt}
use xdna1_npu_emulator.Mailbox.Incoming.{Words, first_word}
use xdna1_npu_emulator.Invariant.{ring_size, Inv}
use xdna1_npu_emulator.Invariant.Send.{ring_base_bound, ring_size_cases}
use xdna1_npu_emulator.Driver.{rd32, wr32}
use xdna1_npu_emulator.Driver.Receive.{Drv, wrap_head, recv_loop, header_of, take, finish}
use xdna1_npu_emulator.Driver.Receive.Access.{Attached, sram_read, mbox_write, tail_read}

-- A message lies at the driver's position in the outgoing ring of the active channel `i`, whole, and
-- the position is not the tail.
pub record Arrived (i : ℕ) (hdr : XdnaMsgHeader) (payload : List ℕ) (s : XdnaNpu) : Type 0 where
  pub channel : i < max_channels
  pub active : (s.chan i).active ≡ true
  pub words : Words hdr
  pub message : MessageAt ((s.chan i).i2x_buf + (s.chan i).i2x_head) hdr payload s.sram
  pub size : hdr.total_size ≡ length payload
  pub some_bytes : 0 < length payload
  pub fits : (s.chan i).i2x_head + header_size + length payload ≤ ring_size i
  pub unread : (s.chan i).i2x_head ≢ (s.chan i).i2x_tail
  pub tail_word : (s.chan i).i2x_tail < 2 ^ 32

module _ (i : ℕ) (hdr : XdnaMsgHeader) (payload : List ℕ) (s : XdnaNpu) (d : Drv) (w : Inv s)
    (q : Arrived i hdr payload s) (o : Attached i (s.chan i) d) where
  bound : (s.chan i).i2x_buf + (s.chan i).i2x_head + header_size + length payload ≤ bar_sram_size
  bound = omega (arith, (w.rings i q.channel q.active).i2x_buf, ring_base_bound i q.channel, q.fits)

  place : add32 d.i2x.rb_start d.i2x_head ≡ (s.chan i).i2x_buf + (s.chan i).i2x_head
  place = omega (arith, o.rb_start, o.position, bound)

  no_wrap : wrap_head d ≡ d.i2x_head
  no_wrap =
      let size = (w.rings i q.channel q.active).i2x_size in
      rw
        (ne→== d.i2x_head d.i2x.rb_size
          (λ e. absurd (omega (arith, e, o.position, o.rb_size, size, q.fits))))
        refl

  parsed :
      header_of (read_bytes s.sram ((s.chan i).i2x_buf + (s.chan i).i2x_head) header_size) ≡ hdr
  unfolding header_of
  parsed = rw q.message.header (λ k. record {
    total_size = le_value-u32_bytes hdr.total_size q.words.total_size k;
    sz_ver = le_value-u32_bytes hdr.sz_ver q.words.sz_ver k;
    id = le_value-u32_bytes hdr.id q.words.id k;
    opcode = le_value-u32_bytes hdr.opcode q.words.opcode k;
  })

  tail_seen : rd32 bar_mbox d.i2x.tail_reg s ≡ ((s.chan i).i2x_tail, s)
  tail_seen = rw o.tail_reg (tail_read i s q.channel q.tail_word)

  peeked :
      xdna_npu_mmio_read_buf bar_sram
        (add32 d.i2x.rb_start (wrap_head d))
        4
        (rd32 bar_mbox d.i2x.tail_reg s).1
      ≡ (read_bytes s.sram ((s.chan i).i2x_buf + (s.chan i).i2x_head) 4, s)
  peeked =
      let at = (s.chan i).i2x_buf + (s.chan i).i2x_head in
      rw (tail_seen, no_wrap, place) (sram_read at 4 s (omega (arith, bound)))

  not_tombstone :
      (le_value (read_bytes s.sram ((s.chan i).i2x_buf + (s.chan i).i2x_head) 4) == mbox_tombstone)
      ≡ false
  not_tombstone =
      rw
        (
          first_word ((s.chan i).i2x_buf + (s.chan i).i2x_head) hdr s.sram q.words q.message.header,
          q.size,
        )
        (ne→== (length payload) mbox_tombstone
          (λ e. absurd (omega (arith, e, q.fits, ring_size_cases i))))

  found : (n : ℕ) → recv_loop (suc n) d s ≡ record { at = some d.i2x_head; drv = d; npu = s }
  unfolding recv_loop
  found n =
      let differs : (d.i2x_head == (s.chan i).i2x_tail) ≡ false =
        ne→== d.i2x_head (s.chan i).i2x_tail (λ e. q.unread (sym o.position ∙ e)) in
      rw (recv_loop, tail_seen, differs)
        (rw (recv_loop, peeked, not_tombstone) (rw (peeked, no_wrap) refl))

  taken :
      let next = (s.chan i).i2x_head + header_size + length payload in
      take d.i2x_head (length payload) d s ≡ (
        record { hdr = hdr; resp = payload },
        record d { i2x_head = next },
        wr32 bar_mbox d.i2x.head_reg next s,
      )
  unfolding take
  taken =
      let at = (s.chan i).i2x_buf + (s.chan i).i2x_head in
      let behind : add32 at header_size ≡ at + header_size = omega (arith, bound) in
      let next : add32 d.i2x_head (add32 header_size (length payload))
          ≡ (s.chan i).i2x_head + header_size + length payload =
        omega (arith, o.position, bound) in
      rw
        (
          place,
          sram_read at header_size s (omega (arith, bound)),
          behind,
          sram_read (at + header_size) (length payload) s bound,
        )
        (rw
          (
            parsed,
            eq→== hdr.total_size (length payload) q.size,
            ne→== (length payload) 0 (λ e. absurd (omega (arith, e, q.some_bytes))),
            q.size,
            next,
            q.message.body,
          )
          refl)

  -- The search takes the message, and moves the position behind it.
  pub search_takes :
      (n : ℕ)
      → let next = (s.chan i).i2x_head + header_size + length payload in
        finish (length payload) (recv_loop (suc n) d s) ≡ (
          some (record { hdr = hdr; resp = payload }),
          record d { i2x_head = next },
          write_chan_reg i mbox_i2x_head_off next s,
        )
  search_takes n =
      let next = (s.chan i).i2x_head + header_size + length payload in
      let moved : wr32 bar_mbox d.i2x.head_reg next s ≡ write_chan_reg i mbox_i2x_head_off next s =
        rw o.head_reg
          (mbox_write i mbox_i2x_head_off next s q.channel (omega arith) (omega (arith, bound))) in
      ap (finish (length payload)) (found n)
      ∙ (λ k. (some (taken k).0, (taken k).1, (taken k).2))
      ∙ (λ k. (some (record { hdr = hdr; resp = payload }), record d { i2x_head = next }, moved k))
