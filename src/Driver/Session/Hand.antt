-- ===== src/Driver/Session/Hand.antt =====
-- tests/test_boot.c: a driver at rest hands a request to the firmware, behind its tail or from the
-- start of the ring.
use xdna1_npu_emulator.Mert.Table.{SameTable}
use xdna1_npu_emulator.Prelude.{
  ℕ, ◌+◌, ◌^◌, ◌≤◌, ◌<◌, bit_and, ◌≡◌, ◌∙◌, inl, inr, true, some, List, arith, leb, leb→le, leb→lt,
  Bool-cases, length, masked_word,
}
use xdna1_npu_emulator.Regs.{sram_mgmt_rb_size, mbox_magic_val, msg_body_sz_mask}
use xdna1_npu_emulator.State.{XdnaNpu}
use xdna1_npu_emulator.Mert.{xdna_mert_handle}
use xdna1_npu_emulator.Mailbox.Send.{header_size}
use xdna1_npu_emulator.Mailbox.Process.{consume}
use xdna1_npu_emulator.Mailbox.Incoming.{Words}
use xdna1_npu_emulator.Invariant.{Safe}
use xdna1_npu_emulator.Driver.Receive.{Drv}
use xdna1_npu_emulator.Driver.Receive.Access.{Attached}
use xdna1_npu_emulator.Driver.Send.{request_id, advance, mbox_send}
use xdna1_npu_emulator.Driver.Send.Feed.{Feeds}
use xdna1_npu_emulator.Driver.Send.Reaches.{
  request_header, Sendable, with_request, send_reaches, consumed-chan, consumed-Safe,
}
use xdna1_npu_emulator.Driver.Send.Wrapped.{Turns}
use xdna1_npu_emulator.Driver.Send.Turn.{turned, turn_reaches, turn-chan, turn-Safe}
use xdna1_npu_emulator.Driver.Send.Answered.{consume-SameTable}

-- The driver knows both rings of the management channel, and both are empty.
pub record Idle (d : Drv) (s : XdnaNpu) : Type 0 where
  pub safe : Safe s
  pub active : (s.chan 0).active ≡ true
  pub feeds : Feeds 0 (s.chan 0) d
  pub outgoing : Attached 0 (s.chan 0) d
  pub drained : (s.chan 0).x2i_head ≡ (s.chan 0).x2i_tail
  pub read_all : (s.chan 0).i2x_head ≡ (s.chan 0).i2x_tail
  pub in_ring : (s.chan 0).x2i_tail + 4 ≤ sram_mgmt_rb_size

-- A request of whole words, at least one, that takes at most half of the ring.
pub record Handy (req : List ℕ) : Type 0 where
  pub some_bytes : 0 < length req
  pub aligned : bit_and (length req) 3 ≡ 0
  pub half : header_size + length req + 2 ≤ 2048

-- The firmware has handled the request, in the device `u`, whose incoming ring is empty again.
pub record Handed (op : ℕ) (req : List ℕ) (d : Drv) (s : XdnaNpu) : Type 0 where
  pub end : ℕ
  pub u : XdnaNpu
  pub reached :
      mbox_send op req d s
      ≡ (some (request_id d), advance end d, xdna_mert_handle 0 (request_header op req d) req u)
  pub chan : u.chan 0 ≡ record (s.chan 0) { x2i_head = end; x2i_tail = end }
  pub in_ring : end + 4 ≤ sram_mgmt_rb_size
  pub safe : Safe u
  pub table : SameTable s u

module _ (op : ℕ) (req : List ℕ) (d : Drv) (s : XdnaNpu) (small : op < 2 ^ 32) (idle : Idle d s)
    (r : Handy req) where
  id_word : request_id d < 2 ^ 32
  id_word = masked_word d.next_id 0xFF mbox_magic_val (2 ^ 32) (omega arith)

  header-Words : Words (request_header op req d)
  header-Words = record {
    total_size = omega (arith, r.half);
    sz_ver = masked_word (length req) msg_body_sz_mask 0x10000 (2 ^ 32) (omega arith);
    id = id_word;
    opcode = small;
  }

  hand_behind :
      (s.chan 0).x2i_tail + header_size + length req + 4 ≤ sram_mgmt_rb_size → Handed op req d s
  hand_behind fits =
      let q : Sendable 0 op req d s = record {
        channel = omega arith;
        active = idle.active;
        feeds = idle.feeds;
        drained = idle.drained;
        fits = fits;
        some_bytes = r.some_bytes;
        aligned = r.aligned;
        words = header-Words;
      } in
      let end = (s.chan 0).x2i_tail + header_size + length req in
      let head : (s.chan 0).x2i_head + header_size + length req ≡ end =
        omega (arith, idle.drained) in
      record {
        end = end;
        u = consume 0 (length req) (with_request 0 op req d s);
        reached = send_reaches 0 op req d s idle.safe.0 q;
        chan =
            consumed-chan 0 op req d s idle.safe.0 q
            ∙ (λ k. record (s.chan 0) { x2i_head = head k; x2i_tail = end });
        in_ring = fits;
        safe = consumed-Safe 0 op req d s idle.safe.0 q idle.safe;
        table =
            let c = consume-SameTable 0 (length req) (with_request 0 op req d s) in
            record { ctx = c.ctx; next = c.next; counted = c.counted; config = c.config };
      }

  hand_turning :
      sram_mgmt_rb_size < (s.chan 0).x2i_tail + header_size + length req + 4 → Handed op req d s
  hand_turning past =
      let q : Turns 0 op req d s = record {
        channel = omega arith;
        active = idle.active;
        feeds = idle.feeds;
        drained = idle.drained;
        in_ring = idle.in_ring;
        past_end = past;
        before = omega (arith, past, r.half);
        some_bytes = r.some_bytes;
        aligned = r.aligned;
        words = header-Words;
      } in
      let w = idle.safe.0 in
      record {
        end = header_size + length req;
        u = consume 0 (length req) (turned 0 op req d s w q);
        reached = turn_reaches 0 op req d s w q;
        chan = turn-chan 0 op req d s w q;
        in_ring = omega (arith, r.half);
        safe = turn-Safe 0 op req d s w q idle.safe;
        table =
            let c = consume-SameTable 0 (length req) (turned 0 op req d s w q) in
            record { ctx = c.ctx; next = c.next; counted = c.counted; config = c.config };
      }

  -- Whether the request fits behind the tail or not, the firmware gets it.
  pub hand : Handed op req d s
  hand =
      let end = (s.chan 0).x2i_tail + header_size + length req + 4 in
      elim (Bool-cases (leb end sram_mgmt_rb_size)) [
        | inl e ↦ hand_behind (leb→le end sram_mgmt_rb_size e)
        | inr e ↦ hand_turning (leb→lt end sram_mgmt_rb_size e)
      ]
