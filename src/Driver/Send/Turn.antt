-- ===== src/Driver/Send/Turn.antt =====
-- tests/test_boot.c against src/xdna_mailbox.c: the device follows the driver's tombstone to the start
-- of the ring.
use xdna1_npu_emulator.Driver.Send.Reaches.{request_header}
use xdna1_npu_emulator.Driver.Receive.Access.{mbox_write}
use xdna1_npu_emulator.Invariant.Process.{set_head-Inv, set_head-Safe}
use xdna1_npu_emulator.Invariant.ProcessSafe.{consume-Safe}
use xdna1_npu_emulator.Mailbox.Skipped.{HeadMarked, process_skips}
use xdna1_npu_emulator.Mailbox.Incoming.{AtHead, consume-chan}
use xdna1_npu_emulator.Mailbox.Deliver.{MessageAt}
use xdna1_npu_emulator.Prelude.{
  ℕ, ◌+◌, ◌≡◌, refl, ap, ◌∙◌, subst, inl, inr, some, List, arith, eq→==, length, add32, u32_bytes,
}
use xdna1_npu_emulator.Regs.{bar_mbox, mbox_x2i_tail_off, mbox_tombstone}
use xdna1_npu_emulator.Mem.{read_bytes}
use xdna1_npu_emulator.Mem.Laws.{read_bytes-write_bytes, read_bytes-write_bytes_disjoint}
use xdna1_npu_emulator.State.{XdnaMsgHeader, XdnaChannel, XdnaNpu, update}
use xdna1_npu_emulator.Mert.{xdna_mert_handle}
use xdna1_npu_emulator.Mailbox.Send.{header_size, header_bytes}
use xdna1_npu_emulator.Mailbox.{write_chan_reg}
use xdna1_npu_emulator.Mailbox.Process.{set_head, consume, xdna_mbox_process}
use xdna1_npu_emulator.Invariant.{Inv, Safe}
use xdna1_npu_emulator.Invariant.Send.{ring_size_cases}
use xdna1_npu_emulator.Invariant.Access.{regs-Inv, regs-Safe}
use xdna1_npu_emulator.Driver.{wr32}
use xdna1_npu_emulator.Driver.Receive.{Drv}
use xdna1_npu_emulator.Driver.Send.{request_id, advance, mbox_send}
use xdna1_npu_emulator.Driver.Send.Wrapped.{
  Turns, marked, placed, head_seen, turns, not_full, marks, put,
}

module _ (i opcode : ℕ) (req : List ℕ) (d : Drv) (s : XdnaNpu) (w : Inv s)
    (q : Turns i opcode req d s) where
  abbrev c : XdnaChannel
  c = s.chan i

  abbrev hdr : XdnaMsgHeader
  hdr = request_header opcode req d

  abbrev pkg : ℕ
  pkg = add32 header_size (length req)

  abbrev end : ℕ
  end = header_size + length req

  abbrev with_tombstone : XdnaNpu
  with_tombstone = marked i opcode req d s

  abbrev with_both : XdnaNpu
  with_both = placed i opcode req d s

  -- The device when the driver has written the tail, and when it has gone back itself.
  abbrev primed : XdnaNpu
  primed = record with_both { chan = update s.chan i (record c { x2i_tail = end }) }

  abbrev pub turned : XdnaNpu
  turned = set_head i 0 primed

  primed-chan : primed.chan i ≡ record c { x2i_tail = end }
  primed-chan = rw (eq→== i i refl) refl

  pub turned-chan : turned.chan i ≡ record c { x2i_head = 0; x2i_tail = end }
  turned-chan = rw (eq→== i i refl) refl

  primed-Inv : Inv primed
  primed-Inv = regs-Inv i end c.i2x_head c.intr with_both w

  primed-HeadMarked : HeadMarked i primed
  primed-HeadMarked =
      let b : (primed.chan i).x2i_buf ≡ c.x2i_buf =
        ap (λ (x : XdnaChannel). x.x2i_buf) primed-chan in
      let head : (primed.chan i).x2i_head ≡ c.x2i_tail =
        ap (λ (x : XdnaChannel). x.x2i_head) primed-chan ∙ q.drained in
      let tail : (primed.chan i).x2i_tail ≡ end =
        ap (λ (x : XdnaChannel). x.x2i_tail) primed-chan in
      record {
        channel = q.channel;
        active = ap (λ (x : XdnaChannel). x.active) primed-chan ∙ q.active;
        word =
            ap (λ (x : ℕ). read_bytes primed.sram x 4) (omega (arith, b, head))
            ∙ read_bytes-write_bytes_disjoint _ (c.x2i_buf + header_size) req
                (c.x2i_buf + c.x2i_tail) 4 (inr (omega (arith, q.before)))
            ∙ read_bytes-write_bytes_disjoint _ c.x2i_buf (header_bytes hdr)
                (c.x2i_buf + c.x2i_tail) 4 (inr (omega (arith, q.before)))
            ∙ read_bytes-write_bytes s.sram (c.x2i_buf + c.x2i_tail) (u32_bytes mbox_tombstone);
        fits = omega (arith, head, q.in_ring);
        unread = λ e. absurd (omega (arith, e, head, tail, q.before));
      }

  turned-AtHead : AtHead i hdr req turned
  turned-AtHead =
      let b : (turned.chan i).x2i_buf ≡ c.x2i_buf =
        ap (λ (x : XdnaChannel). x.x2i_buf) turned-chan in
      let head : (turned.chan i).x2i_head ≡ 0 = ap (λ (x : XdnaChannel). x.x2i_head) turned-chan in
      record {
        channel = q.channel;
        active = ap (λ (x : XdnaChannel). x.active) turned-chan ∙ q.active;
        words = q.words;
        message =
            subst (λ (p : ℕ). MessageAt p hdr req turned.sram) (omega (arith, b, head))
              (record {
                header =
                    read_bytes-write_bytes_disjoint _ (c.x2i_buf + header_size) req c.x2i_buf
                      header_size (inl (omega arith))
                    ∙ read_bytes-write_bytes with_tombstone.sram c.x2i_buf (header_bytes hdr);
                body = read_bytes-write_bytes _ (c.x2i_buf + header_size) req;
              });
        size = refl;
        some_bytes = q.some_bytes;
        aligned = q.aligned;
        fits = omega (arith, head, q.before, q.in_ring);
      }

  turned-Inv : Inv turned
  turned-Inv = set_head-Inv i 0 primed primed-Inv

  kicked : wr32 bar_mbox d.x2i.tail_reg end with_both ≡ xdna_mbox_process i primed
  unfolding write_chan_reg
  kicked =
      rw
        (
          q.feeds.tail_reg,
          mbox_write i mbox_x2i_tail_off end with_both q.channel (omega arith)
              (omega (arith, q.before, q.in_ring, ring_size_cases i)),
          w.index i q.channel,
        )
        refl

  -- The request reaches the firmware, and the device has gone back to the start of the ring.
  pub turn_reaches : mbox_send opcode req d s ≡ (
    some (request_id d),
    advance end d,
    xdna_mert_handle i hdr req (consume i (length req) turned),
  )
  unfolding mbox_send
  turn_reaches =
      let last : add32 0 pkg ≡ end = omega (arith, q.before, q.in_ring, ring_size_cases i) in
      let tail : (turned.chan i).x2i_tail ≡ (turned.chan i).x2i_head + header_size + length req =
        omega (
          arith,
          ap (λ (x : XdnaChannel). x.x2i_tail) turned-chan,
          ap (λ (x : XdnaChannel). x.x2i_head) turned-chan,
        ) in
      let handled =
        process_skips i primed primed-Inv primed-HeadMarked hdr req turned-Inv turned-AtHead tail in
      rw
        (
          head_seen i opcode req d s w q,
          not_full i opcode req d s w q,
          marks i opcode req d s w q,
          turns i opcode req d s w q,
          put i opcode req d s w q,
          last,
          kicked,
          handled,
        )
        refl

  pub turn-chan :
      (consume i (length req) turned).chan i ≡ record c { x2i_head = end; x2i_tail = end }
  turn-chan =
      consume-chan i hdr req turned turned-Inv turned-AtHead
      ∙ (λ k. record (turned-chan k) {
        x2i_head = (turned-chan k).x2i_head + header_size + length req;
      })
      ∙ (λ k. record c { x2i_head = zero_add k; x2i_tail = end })
    where
      zero_add : 0 + header_size + length req ≡ end
      zero_add = omega arith

  pub turn-Safe : Safe s → Safe (consume i (length req) turned)
  turn-Safe v =
      let r = turned-Inv.rings i q.channel turned-AtHead.active in
      let p : Safe primed =
        regs-Safe i end c.i2x_head c.intr with_both (λ h act. (v.1.in_ring i h act).0) v in
      consume-Safe i (length req) turned q.channel
        (record { ring = r; head = omega (arith, r.x2i_size, turned-AtHead.fits) })
        turned-AtHead.fits (set_head-Safe i 0 primed p)
