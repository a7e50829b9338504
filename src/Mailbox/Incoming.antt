-- ===== src/Mailbox/Incoming.antt =====
-- src/xdna_mailbox.c, `xdna_mbox_process`: one message that the driver has queued.
use xdna1_npu_emulator.Prelude.{
  ℕ, suc, ◌+◌, ◌^◌, ◌≤◌, ◌<◌, bit_and, ◌≡◌, refl, sym, ap, ◌∙◌, true, false, List, arith, le→ltb,
  lt→leb, eq→==, ne→==, length, add32, le_value, u32_at, le_value-u32_bytes,
}
use xdna1_npu_emulator.State.{XdnaMsgHeader, XdnaNpu, max_channels, xdna_sram_read32}
use xdna1_npu_emulator.Mailbox.Process.{
  read_header, consume, take_message, again, is_bad_size, room, payload_limit, inspect, round,
  process_loop, xdna_mbox_process,
}
use xdna1_npu_emulator.Regs.{bar_sram_size, mbox_tombstone}
use xdna1_npu_emulator.Mem.{Mem, read_bytes}
use xdna1_npu_emulator.Mert.Kept.Dispatch.{handle-keeps}
use xdna1_npu_emulator.Mert.{xdna_mert_handle}
use xdna1_npu_emulator.Mailbox.Send.{header_size, header_bytes}
use xdna1_npu_emulator.Mailbox.Deliver.{MessageAt}
use xdna1_npu_emulator.Invariant.{ring_size, Inv}
use xdna1_npu_emulator.Invariant.Basic.{touch_in}
use xdna1_npu_emulator.Invariant.Send.{ring_base_bound, ring_size_cases}
use xdna1_npu_emulator.Mailbox.Drained.{Drained, Drained-Kept}

-- The fields of a header are 32-bit words.
pub record Words (hdr : XdnaMsgHeader) : Type 0 where
  pub total_size : hdr.total_size < 2 ^ 32
  pub sz_ver : hdr.sz_ver < 2 ^ 32
  pub id : hdr.id < 2 ^ 32
  pub opcode : hdr.opcode < 2 ^ 32

pub read_header-bytes :
    (at : ℕ) (hdr : XdnaMsgHeader) (s : XdnaNpu)
    → Words hdr
    → read_bytes s.sram at header_size ≡ header_bytes hdr
    → read_header at s ≡ hdr
unfolding read_header
read_header-bytes at hdr s w e = rw e (λ i. record {
  total_size = le_value-u32_bytes hdr.total_size w.total_size i;
  sz_ver = le_value-u32_bytes hdr.sz_ver w.sz_ver i;
  id = le_value-u32_bytes hdr.id w.id i;
  opcode = le_value-u32_bytes hdr.opcode w.opcode i;
})

pub first_word :
    (at : ℕ) (hdr : XdnaMsgHeader) (m : Mem)
    → Words hdr
    → read_bytes m at header_size ≡ header_bytes hdr
    → le_value (read_bytes m at 4) ≡ hdr.total_size
unfolding read_bytes
first_word at hdr m w e =
    ap (λ (bs : List ℕ). u32_at bs 0) e ∙ le_value-u32_bytes hdr.total_size w.total_size

-- A well-formed message lies at the head of the incoming ring of the active channel `i`.
pub record AtHead (i : ℕ) (hdr : XdnaMsgHeader) (payload : List ℕ) (s : XdnaNpu) : Type 0 where
  pub channel : i < max_channels
  pub active : (s.chan i).active ≡ true
  pub words : Words hdr
  pub message : MessageAt ((s.chan i).x2i_buf + (s.chan i).x2i_head) hdr payload s.sram
  pub size : hdr.total_size ≡ length payload
  pub some_bytes : 0 < length payload
  pub aligned : bit_and (length payload) 3 ≡ 0
  pub fits : (s.chan i).x2i_head + header_size + length payload ≤ ring_size i

module _ (i : ℕ) (hdr : XdnaMsgHeader) (payload : List ℕ) (s : XdnaNpu) (w : Inv s)
    (q : AtHead i hdr payload s) where
  in_sram_bound :
      let a = (s.chan i).x2i_buf + (s.chan i).x2i_head in
      a + header_size + length payload ≤ bar_sram_size
  in_sram_bound =
      omega (arith, (w.rings i q.channel q.active).x2i_buf, ring_base_bound i q.channel, q.fits)

  peeked :
      let a = (s.chan i).x2i_buf + (s.chan i).x2i_head in
      xdna_sram_read32 (add32 (s.chan i).x2i_buf (s.chan i).x2i_head) s ≡ (length payload, s)
  unfolding xdna_sram_read32
  peeked =
      let c = s.chan i in
      let a = c.x2i_buf + c.x2i_head in
      let no_wrap : add32 c.x2i_buf c.x2i_head ≡ a = omega (arith, in_sram_bound) in
      rw
        (
          no_wrap,
          le→ltb bar_sram_size (add32 a 4) (omega (arith, in_sram_bound)),
          touch_in a 4 s (omega (arith, in_sram_bound)),
          first_word a hdr s.sram q.words q.message.header,
          q.size,
        )
        refl

  inspected : inspect i (length payload) s ≡ again (take_message i (length payload) s)
  unfolding inspect
  inspected =
      let c = s.chan i in
      let r = w.rings i q.channel q.active in
      let n = length payload in
      let bad : is_bad_size n ≡ false =
        rw (ne→== n 0 (λ e. absurd (omega (arith, q.some_bytes))), q.aligned) refl in
      rw
        (
          ne→== n mbox_tombstone (λ e. absurd (omega (arith, q.fits, ring_size_cases i))),
          bad,
          le→ltb (room c) (add32 header_size n)
              (ground (arith, r.x2i_size, q.fits, ring_size_cases i)),
          le→ltb payload_limit n (omega (arith, q.fits, ring_size_cases i)),
        )
        refl

  taken :
      take_message i (length payload) s
      ≡ xdna_mert_handle i hdr payload (consume i (length payload) s)
  unfolding take_message
  taken =
      rw
        (
          read_header-bytes ((s.chan i).x2i_buf + (s.chan i).x2i_head) hdr s q.words
              q.message.header,
          q.message.body,
        )
        refl

  -- A round of the loop takes the message, and hands it to the firmware.
  pub round_takes :
      round i s ≡ again (xdna_mert_handle i hdr payload (consume i (length payload) s))
  unfolding round
  round_takes =
      let r = w.rings i q.channel q.active in
      rw
        (
          lt→leb (s.chan i).x2i_size (s.chan i).x2i_head (omega (arith, r.x2i_size, q.fits)),
          peeked,
          inspected,
          taken,
        )
        refl

  pub consume-chan :
      (consume i (length payload) s).chan i
      ≡ record (s.chan i) { x2i_head = (s.chan i).x2i_head + header_size + length payload }
  unfolding consume
  consume-chan =
      let c = s.chan i in
      let next : add32 c.x2i_head (add32 header_size (length payload))
          ≡ c.x2i_head + header_size + length payload =
        omega (arith, q.fits, ring_size_cases i) in
      rw
        (
          touch_in (c.x2i_buf + c.x2i_head) header_size s (omega (arith, in_sram_bound)),
          touch_in (c.x2i_buf + c.x2i_head + header_size) (length payload) s
              (omega (arith, in_sram_bound)),
          eq→== i i refl,
          next,
        )
        refl

  pub consume-sram : (consume i (length payload) s).sram ≡ s.sram
  unfolding consume
  consume-sram =
      let c = s.chan i in
      rw
        (
          touch_in (c.x2i_buf + c.x2i_head) header_size s (omega (arith, in_sram_bound)),
          touch_in (c.x2i_buf + c.x2i_head + header_size) (length payload) s
              (omega (arith, in_sram_bound)),
        )
        refl

  -- Two rounds of the loop take the last message.
  pub loop_handles :
      (s.chan i).x2i_tail ≡ (s.chan i).x2i_head + header_size + length payload
      → (n : ℕ)
      → process_loop (suc (suc n)) i s
        ≡ xdna_mert_handle i hdr payload (consume i (length payload) s)
  unfolding process_loop
  loop_handles last n =
      let t = xdna_mert_handle i hdr payload (consume i (length payload) s) in
      let drained : Drained ((consume i (length payload) s).chan i) = rw consume-chan (sym last) in
      let empty : Drained (t.chan i) =
        handle-keeps (Drained-Kept i i) hdr payload (consume i (length payload) s) drained in
      rw
        (
          ne→== (s.chan i).x2i_head (s.chan i).x2i_tail (λ e. absurd (omega (arith, last))),
          process_loop,
          round_takes,
          eq→== (t.chan i).x2i_head (t.chan i).x2i_tail empty,
        )
        refl

  -- A message that is well formed, fits into the ring and has nothing behind it is taken out by one
  -- kick of its channel: the firmware handles exactly its header and its payload, once, after the
  -- head has moved past it and it is counted, and nothing else is done.
  pub process_handles :
      (s.chan i).x2i_tail ≡ (s.chan i).x2i_head + header_size + length payload
      → xdna_mbox_process i s ≡ xdna_mert_handle i hdr payload (consume i (length payload) s)
  unfolding xdna_mbox_process
  process_handles last = rw (lt→leb max_channels i q.channel, q.active) (loop_handles last 254)
