-- ===== src/Driver/Send/Answered.antt =====
-- tests/test_boot.c against src/xdna_mailbox.c: a reply of the firmware reaches the driver.
use xdna1_npu_emulator.Mert.Table.{SameTable}
use xdna1_npu_emulator.Mailbox.Process.{consume}
use xdna1_npu_emulator.State.{XdnaChannel, XdnaNpu, touch}
use xdna1_npu_emulator.Prelude.{
  ℕ, ◌+◌, ◌^◌, ◌≤◌, ◌<◌, ◌≡◌, sym, ap, ◌∙◌, Option, some, List, arith, length, masked_word,
}
use xdna1_npu_emulator.Regs.{msg_body_sz_mask}
use xdna1_npu_emulator.Invariant.Send.{ring_size_cases}
use xdna1_npu_emulator.Mailbox.Send.{header_size, message_header, xdna_mbox_send}
use xdna1_npu_emulator.Mailbox.Incoming.{Words}
use xdna1_npu_emulator.Mert.Reply.{mert_reply}
use xdna1_npu_emulator.Mert.{xdna_mert_handle}
use xdna1_npu_emulator.Invariant.{ring_size, Safe}
use xdna1_npu_emulator.Driver.Receive.{Drv}
use xdna1_npu_emulator.Driver.Receive.Access.{Attached}
use xdna1_npu_emulator.Driver.Receive.Delivery.{recv-send}
use xdna1_npu_emulator.Driver.Send.{request_id, advance, mbox_send, await_reply, mbox_send_recv}
use xdna1_npu_emulator.Driver.Send.Reaches.{
  request_header, Sendable, send_reaches, consumed, consumed-chan,
}

-- Taking a message out of the ring leaves the firmware running, the contexts and the configuration.
pub consume-alive : (i n : ℕ) (s : XdnaNpu) → (consume i n s).fw_alive ≡ s.fw_alive
unfolding consume touch
consume-alive i n s = ground arith

pub consume-SameTable : (i n : ℕ) (s : XdnaNpu) → SameTable s (consume i n s)
unfolding consume touch
consume-SameTable i n s = record {
  ctx = ground arith;
  next = ground arith;
  counted = ground arith;
  config = ground arith;
}

-- The driver knows both rings of the channel and has read everything; the request and a reply of
-- `size` bytes fit behind the tails.
pub record CanAsk (i op : ℕ) (req : List ℕ) (size : ℕ) (d : Drv) (s : XdnaNpu) : Type 0 where
  pub safe : Safe s
  pub request : Sendable i op req d s
  pub outgoing : Attached i (s.chan i) d
  pub read_all : (s.chan i).i2x_head ≡ (s.chan i).i2x_tail
  pub some_bytes : 0 < size
  pub fits : (s.chan i).i2x_tail + header_size + size + 4 ≤ ring_size i

module _ (i op : ℕ) (req reply : List ℕ) (d : Drv) (s : XdnaNpu)
    (a : CanAsk i op req (length reply) d s) (before : XdnaNpu) where
  abbrev u : XdnaNpu
  u = consumed i op req d s a.safe.0 a.request

  abbrev d' : Drv
  d' = advance ((s.chan i).x2i_tail + header_size + length req) d

  still-Attached : before.chan i ≡ u.chan i → Attached i (before.chan i) d'
  still-Attached same = rw (same ∙ consumed-chan i op req d s a.safe.0 a.request) (record {
    rb_start = a.outgoing.rb_start;
    rb_size = a.outgoing.rb_size;
    head_reg = a.outgoing.head_reg;
    tail_reg = a.outgoing.tail_reg;
    intr_reg = a.outgoing.intr_reg;
    position = a.outgoing.position;
  })

  reply-Words : Words (message_header (length reply) (request_id d) op)
  reply-Words = record {
    total_size = omega (arith, a.fits, ring_size_cases i);
    sz_ver = masked_word (length reply) msg_body_sz_mask 0x10000 (2 ^ 32) (omega arith);
    id = a.request.words.id;
    opcode = a.request.words.opcode;
  }

  -- If the firmware replies to the request, in a device that is in order and has the channel as it was
  -- when the request was taken out, the driver receives the reply.
  pub receives :
      before.chan i ≡ u.chan i
      → Safe before
      → xdna_mert_handle i (request_header op req d) req u
        ≡ mert_reply i (request_header op req d) reply before
      → (mbox_send_recv op req (length reply) d s).0
        ≡ some (record { hdr = message_header (length reply) (request_id d) op; resp = reply })
  unfolding mbox_send_recv mert_reply
  receives same v handled =
      let k = same ∙ consumed-chan i op req d s a.safe.0 a.request in
      let e : mbox_send op req d s
          ≡ (some (request_id d), d', (xdna_mbox_send i (request_id d) op reply before).1) =
        send_reaches i op req d s a.safe.0 a.request
        ∙ (λ j. (some (request_id d), d', handled j)) in
      let head = ap (λ (c : XdnaChannel). c.i2x_head) k in
      let tail = ap (λ (c : XdnaChannel). c.i2x_tail) k in
      ap (λ (o : Option ℕ × Drv × XdnaNpu). (await_reply (length reply) o).0) e
      ∙ (recv-send i (request_id d) op reply before d' a.request.channel
          (ap (λ (c : XdnaChannel). c.active) k ∙ a.request.active) v (still-Attached same)
          (head ∙ a.read_all ∙ sym tail) (omega (arith, tail, a.fits)) a.some_bytes reply-Words).0
