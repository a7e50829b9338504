-- ===== src/Driver/Send/Reaches.antt =====
-- tests/test_boot.c against src/xdna_mailbox.c: the request of the driver reaches the firmware.
use xdna1_npu_emulator.Invariant.ProcessSafe.{consume-Safe}
use xdna1_npu_emulator.Mem.Laws.{read_bytes-write_bytes, read_bytes-write_bytes_disjoint}
use xdna1_npu_emulator.Mailbox.Process.{consume, xdna_mbox_process}
use xdna1_npu_emulator.Mailbox.{write_chan_reg}
use xdna1_npu_emulator.Mert.{xdna_mert_handle}
use xdna1_npu_emulator.Driver.Receive.Access.{mbox_write}
use xdna1_npu_emulator.Invariant.Access.{regs-Inv, regs-Safe}
use xdna1_npu_emulator.Mailbox.Deliver.{MessageAt}
use xdna1_npu_emulator.Prelude.{
  ℕ, ◌+◌, ◌≤◌, ◌<◌, bit_and, ◌≡◌, refl, sym, ap, ◌∙◌, subst, inl, true, false, some, List, arith,
  le→ltb, eq→==, ne→==, length, add32,
}
use xdna1_npu_emulator.Regs.{bar_mbox, bar_sram_size, mbox_x2i_tail_off}
use xdna1_npu_emulator.Mem.{read_bytes, write_bytes}
use xdna1_npu_emulator.State.{XdnaMsgHeader, XdnaChannel, XdnaNpu, max_channels, update}
use xdna1_npu_emulator.Mailbox.Send.{header_size, header_bytes, message_header}
use xdna1_npu_emulator.Mailbox.Incoming.{Words, AtHead, consume-chan, process_handles}
use xdna1_npu_emulator.Invariant.{ring_size, Inv, Safe}
use xdna1_npu_emulator.Invariant.Send.{ring_base_bound, ring_size_cases}
use xdna1_npu_emulator.Driver.{rd32, wr32}
use xdna1_npu_emulator.Driver.Receive.{Drv}
use xdna1_npu_emulator.Driver.Send.{
  x2i_wraps, x2i_full, x2i_tombstone, request_id, put_request, advance, mbox_send,
}
use xdna1_npu_emulator.Driver.Send.Feed.{Feeds, sram_write, head_read}

-- The header that the driver gives to a request.
abbrev pub request_header : ℕ → List ℕ → Drv → XdnaMsgHeader
request_header opcode req d = message_header (length req) (request_id d) opcode

-- The device has taken everything out of the incoming ring of channel `i`, and a request of whole
-- words fits behind the tail.
pub record Sendable (i opcode : ℕ) (req : List ℕ) (d : Drv) (s : XdnaNpu) : Type 0 where
  pub channel : i < max_channels
  pub active : (s.chan i).active ≡ true
  pub feeds : Feeds i (s.chan i) d
  pub drained : (s.chan i).x2i_head ≡ (s.chan i).x2i_tail
  pub fits : (s.chan i).x2i_tail + header_size + length req + 4 ≤ ring_size i
  pub some_bytes : 0 < length req
  pub aligned : bit_and (length req) 3 ≡ 0
  pub words : Words (request_header opcode req d)

-- The device with the request in the ring, and the tail behind it.
abbrev pub with_request : ℕ → ℕ → List ℕ → Drv → XdnaNpu → XdnaNpu
with_request i opcode req d s =
    let c = s.chan i in
    let at = c.x2i_buf + c.x2i_tail in
    let hdr = request_header opcode req d in
    record s {
      sram = write_bytes (write_bytes s.sram at (header_bytes hdr)) (at + header_size) req;
      chan = update s.chan i (record c { x2i_tail = c.x2i_tail + header_size + length req });
    }

module _ (i opcode : ℕ) (req : List ℕ) (d : Drv) (s : XdnaNpu) (w : Inv s)
    (q : Sendable i opcode req d s) where
  abbrev c : XdnaChannel
  c = s.chan i

  abbrev hdr : XdnaMsgHeader
  hdr = request_header opcode req d

  abbrev at : ℕ
  at = c.x2i_buf + c.x2i_tail

  abbrev pkg : ℕ
  pkg = add32 header_size (length req)

  abbrev end : ℕ
  end = c.x2i_tail + header_size + length req

  abbrev placed : XdnaNpu
  placed = record s {
    sram = write_bytes (write_bytes s.sram at (header_bytes hdr)) (at + header_size) req;
  }

  bound : at + header_size + length req ≤ bar_sram_size
  bound = omega (arith, (w.rings i q.channel q.active).x2i_buf, ring_base_bound i q.channel, q.fits)

  head_seen : rd32 bar_mbox d.x2i.head_reg s ≡ (c.x2i_head, s)
  head_seen =
      rw q.feeds.head_reg
        (head_read i s q.channel (omega (arith, q.drained, q.fits, ring_size_cases i)))

  no_wrap : x2i_wraps d c.x2i_head pkg ≡ false
  no_wrap = ground (
    arith,
    q.feeds.position,
    q.feeds.rb_size,
    (w.rings i q.channel q.active).x2i_size,
    q.fits,
    ring_size_cases i,
  )

  not_full : x2i_full d c.x2i_head pkg ≡ false
  not_full =
      rw (no_wrap, q.feeds.position, q.drained, le→ltb c.x2i_tail c.x2i_tail (omega arith)) refl

  put : put_request d.x2i_tail hdr req d s ≡ placed
  unfolding put_request
  put =
      let start : add32 d.x2i.rb_start d.x2i_tail ≡ at =
        omega (arith, q.feeds.rb_start, q.feeds.position, bound) in
      let behind : add32 at header_size ≡ at + header_size = omega (arith, bound) in
      rw
        (
          start,
          behind,
          ne→== (length req) 0 (λ e. absurd (omega (arith, e, q.some_bytes))),
          sram_write at (header_bytes hdr) s (omega (arith, bound)),
          sram_write (at + header_size) req
              (record s { sram = write_bytes s.sram at (header_bytes hdr) }) bound,
        )
        refl

  abbrev primed : XdnaNpu
  primed = with_request i opcode req d s

  primed-chan : primed.chan i ≡ record c { x2i_tail = end }
  primed-chan = rw (eq→== i i refl) refl

  pub primed-Inv : Inv primed
  primed-Inv = regs-Inv i end c.i2x_head c.intr placed w

  header_kept : read_bytes primed.sram at header_size ≡ header_bytes hdr
  header_kept =
      read_bytes-write_bytes_disjoint (write_bytes s.sram at (header_bytes hdr)) (at + header_size)
        req at header_size (inl (omega arith))
      ∙ read_bytes-write_bytes s.sram at (header_bytes hdr)

  at_head : AtHead i hdr req primed
  at_head =
      let buf : (primed.chan i).x2i_buf ≡ c.x2i_buf =
        ap (λ (x : XdnaChannel). x.x2i_buf) primed-chan in
      let head : (primed.chan i).x2i_head ≡ c.x2i_head =
        ap (λ (x : XdnaChannel). x.x2i_head) primed-chan in
      record {
        channel = q.channel;
        active = ap (λ (x : XdnaChannel). x.active) primed-chan ∙ q.active;
        words = q.words;
        message =
            subst (λ (p : ℕ). MessageAt p hdr req primed.sram) (omega (arith, buf, head, q.drained))
              (record {
                header = header_kept;
                body =
                    read_bytes-write_bytes (write_bytes s.sram at (header_bytes hdr))
                      (at + header_size) req;
              });
        size = refl;
        some_bytes = q.some_bytes;
        aligned = q.aligned;
        fits = omega (arith, head, q.drained, q.fits);
      }

  kicked : wr32 bar_mbox d.x2i.tail_reg end placed ≡ xdna_mbox_process i primed
  unfolding write_chan_reg
  kicked =
      rw
        (
          q.feeds.tail_reg,
          mbox_write i mbox_x2i_tail_off end placed q.channel (omega arith)
              (omega (arith, q.fits, ring_size_cases i)),
          w.index i q.channel,
        )
        refl

  -- A request of whole words, at least one, that fits behind the tail of an incoming ring out of
  -- which the device has taken everything, reaches the firmware: when the driver has written the tail,
  -- the firmware has handled exactly the header and the request, once, and nothing else was done.
  pub send_reaches : mbox_send opcode req d s ≡ (
    some (request_id d),
    advance end d,
    xdna_mert_handle i hdr req (consume i (length req) primed),
  )
  unfolding mbox_send x2i_tombstone
  send_reaches =
      let end_of : (primed.chan i).x2i_head + header_size + length req ≡ (primed.chan i).x2i_tail =
        omega (
          arith,
          ap (λ (x : XdnaChannel). x.x2i_head) primed-chan,
          ap (λ (x : XdnaChannel). x.x2i_tail) primed-chan,
          q.drained,
        ) in
      let last : add32 d.x2i_tail pkg ≡ end =
        omega (arith, q.feeds.position, q.fits, ring_size_cases i) in
      let handled : xdna_mbox_process i primed
          ≡ xdna_mert_handle i hdr req (consume i (length req) primed) =
        process_handles i hdr req primed primed-Inv at_head (sym end_of) in
      rw (head_seen, not_full, no_wrap, put, last, kicked, handled) refl

  -- The device before the firmware handles the request.
  abbrev pub consumed : XdnaNpu
  consumed = consume i (length req) primed

  pub consumed-chan :
      consumed.chan i
      ≡ record c { x2i_head = c.x2i_head + header_size + length req; x2i_tail = end }
  consumed-chan = consume-chan i hdr req primed primed-Inv at_head ∙ (λ k. record (primed-chan k) {
    x2i_head = (primed-chan k).x2i_head + header_size + length req;
  })

  pub consumed-Safe : Safe s → Safe consumed
  consumed-Safe v =
      let r = primed-Inv.rings i q.channel at_head.active in
      let p : Safe primed =
        regs-Safe i end c.i2x_head c.intr placed (λ h act. (v.1.in_ring i h act).0) v in
      consume-Safe i (length req) primed q.channel
        (record { ring = r; head = omega (arith, r.x2i_size, at_head.fits) }) at_head.fits p
