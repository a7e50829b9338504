-- ===== src/Driver/Send/Wrapped.antt =====
-- tests/test_boot.c against src/xdna_mailbox.c: a request that does not fit behind the driver's tail
-- reaches the firmware from the start of the ring.
use xdna1_npu_emulator.Driver.Send.Reaches.{request_header}
use xdna1_npu_emulator.Mailbox.Incoming.{Words}
use xdna1_npu_emulator.Prelude.{
  ℕ, ◌+◌, ◌≤◌, ◌<◌, bit_and, ◌≡◌, refl, true, false, List, arith, ne→==, length, add32, u32_bytes,
}
use xdna1_npu_emulator.Regs.{bar_mbox, bar_sram_size, mbox_tombstone}
use xdna1_npu_emulator.Mem.{write_bytes}
use xdna1_npu_emulator.State.{XdnaMsgHeader, XdnaChannel, XdnaNpu, max_channels}
use xdna1_npu_emulator.Mailbox.Send.{header_size, header_bytes}
use xdna1_npu_emulator.Invariant.{ring_base, ring_size, Inv}
use xdna1_npu_emulator.Invariant.Send.{ring_base_bound, ring_size_cases}
use xdna1_npu_emulator.Driver.{rd32}
use xdna1_npu_emulator.Driver.Receive.{Drv}
use xdna1_npu_emulator.Driver.Send.{x2i_wraps, x2i_full, x2i_tombstone, put_request}
use xdna1_npu_emulator.Driver.Send.Feed.{Feeds, sram_write, head_read}

-- The device has taken everything out of the incoming ring of channel `i`, and a request of whole
-- words fits before the tail, but not behind it.
pub record Turns (i opcode : ℕ) (req : List ℕ) (d : Drv) (s : XdnaNpu) : Type 0 where
  pub channel : i < max_channels
  pub active : (s.chan i).active ≡ true
  pub feeds : Feeds i (s.chan i) d
  pub drained : (s.chan i).x2i_head ≡ (s.chan i).x2i_tail
  pub in_ring : (s.chan i).x2i_tail + 4 ≤ ring_size i
  pub past_end : ring_size i < (s.chan i).x2i_tail + header_size + length req + 4
  pub before : header_size + length req < (s.chan i).x2i_tail
  pub some_bytes : 0 < length req
  pub aligned : bit_and (length req) 3 ≡ 0
  pub words : Words (request_header opcode req d)

module _ (i opcode : ℕ) (req : List ℕ) (d : Drv) (s : XdnaNpu) where
  -- The device with the tombstone, and with the request at the start of the ring.
  abbrev pub tomb_at : ℕ
  tomb_at = (s.chan i).x2i_buf + (s.chan i).x2i_tail

  abbrev pub marked : XdnaNpu
  marked = record s { sram = write_bytes s.sram tomb_at (u32_bytes mbox_tombstone) }

  abbrev pub placed : XdnaNpu
  placed = record s {
    sram =
        write_bytes
          (write_bytes marked.sram (s.chan i).x2i_buf (header_bytes (request_header opcode req d)))
          ((s.chan i).x2i_buf + header_size) req;
  }

module _ (i opcode : ℕ) (req : List ℕ) (d : Drv) (s : XdnaNpu) (w : Inv s)
    (q : Turns i opcode req d s) where
  abbrev c : XdnaChannel
  c = s.chan i

  abbrev hdr : XdnaMsgHeader
  hdr = request_header opcode req d

  abbrev pkg : ℕ
  pkg = add32 header_size (length req)

  abbrev with_tombstone : XdnaNpu
  with_tombstone = marked i opcode req d s

  abbrev with_both : XdnaNpu
  with_both = placed i opcode req d s

  buf : c.x2i_buf ≡ ring_base i
  buf = (w.rings i q.channel q.active).x2i_buf

  size : c.x2i_size ≡ ring_size i
  size = (w.rings i q.channel q.active).x2i_size

  bound : c.x2i_buf + c.x2i_tail + 4 ≤ bar_sram_size
  bound = omega (arith, buf, ring_base_bound i q.channel, q.in_ring)

  pub head_seen : rd32 bar_mbox d.x2i.head_reg s ≡ (c.x2i_head, s)
  head_seen =
      rw q.feeds.head_reg
        (head_read i s q.channel (omega (arith, q.drained, q.in_ring, ring_size_cases i)))

  pub turns : x2i_wraps d c.x2i_head pkg ≡ true
  turns = ground (
    arith,
    q.feeds.position,
    q.feeds.rb_size,
    size,
    q.drained,
    q.in_ring,
    q.past_end,
    q.before,
    ring_size_cases i,
  )

  pub not_full : x2i_full d c.x2i_head pkg ≡ false
  not_full = rw turns (ground (arith, q.drained, q.before, q.in_ring, ring_size_cases i))

  pub marks : x2i_tombstone d c.x2i_head pkg s ≡ with_tombstone
  unfolding x2i_tombstone
  marks =
      let place : add32 d.x2i.rb_start d.x2i_tail ≡ (c.x2i_buf + c.x2i_tail) =
        omega (arith, q.feeds.rb_start, q.feeds.position, bound) in
      rw (turns, place) (sram_write (c.x2i_buf + c.x2i_tail) (u32_bytes mbox_tombstone) s bound)

  pub put : put_request 0 hdr req d with_tombstone ≡ with_both
  unfolding put_request
  put =
      let start : add32 d.x2i.rb_start 0 ≡ c.x2i_buf = omega (arith, q.feeds.rb_start, bound) in
      let behind : add32 c.x2i_buf header_size ≡ c.x2i_buf + header_size =
        omega (arith, bound, q.before) in
      rw
        (
          start,
          behind,
          ne→== (length req) 0 (λ e. absurd (omega (arith, e, q.some_bytes))),
          sram_write c.x2i_buf (header_bytes hdr) with_tombstone (omega (arith, bound, q.before)),
          sram_write (c.x2i_buf + header_size) req
              (record s { sram = write_bytes with_tombstone.sram c.x2i_buf (header_bytes hdr) })
              (omega (arith, bound, q.before)),
        )
        refl
