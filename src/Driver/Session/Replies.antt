-- ===== src/Driver/Session/Replies.antt =====
-- tests/test_boot.c: a reply of the firmware reaches the driver, wherever it lies in the ring, and
-- both are at rest again.
use xdna1_npu_emulator.Driver.Session.Hand.{Idle, Handed}
use xdna1_npu_emulator.Driver.Send.Reaches.{request_header}
use xdna1_npu_emulator.Driver.Receive.Accepted.{accepted-IsTaken}
use xdna1_npu_emulator.Driver.Receive.Delivery.{sent-chan}
use xdna1_npu_emulator.Driver.Receive.Taken.{IsTaken}
use xdna1_npu_emulator.Prelude.{
  ℕ, ◌+◌, ◌^◌, ◌≤◌, ◌<◌, ◌≡◌, refl, sym, ap, ◌∙◌, ◌≢◌, true, false, Option, some, List, arith,
  length, add32, masked_word,
}
use xdna1_npu_emulator.Regs.{sram_mgmt_rb_size, mbox_magic_val, msg_body_sz_mask}
use xdna1_npu_emulator.State.{XdnaMsgHeader, XdnaChannel, XdnaNpu}
use xdna1_npu_emulator.Mert.{xdna_mert_handle}
use xdna1_npu_emulator.Mert.Reply.{mert_reply}
use xdna1_npu_emulator.Mert.Table.{SameTable, reply-SameTable}
use xdna1_npu_emulator.Mailbox.Send.{
  header_size, message_header, package_size, write_tail, is_full, xdna_mbox_send,
}
use xdna1_npu_emulator.Invariant.{ring_size, Safe}
use xdna1_npu_emulator.Driver.Receive.{Drv, Received, mbox_recv}
use xdna1_npu_emulator.Driver.Send.{request_id, advance, await_reply, mbox_send_recv}
use xdna1_npu_emulator.Mailbox.Others.{send-other}

-- The driver and the device after a round are at rest again.
rest-Idle :
    (d : Drv) (s : XdnaNpu) (d' : Drv) (s' : XdnaNpu) (end tail id : ℕ)
    → Idle d s
    → d' ≡ record d { x2i_tail = end; next_id = id; i2x_head = tail }
    → s'.chan 0 ≡ record (s.chan 0) {
      x2i_head = end;
      x2i_tail = end;
      i2x_head = tail;
      i2x_tail = tail;
      intr = 0;
    }
    → end + 4 ≤ sram_mgmt_rb_size
    → Safe s'
    → Idle d' s'
rest-Idle d s d' s' end tail id idle ed es fits v = record {
  safe = v;
  active = ap (λ (c : XdnaChannel). c.active) es ∙ idle.active;
  feeds =
      rw (ed, es)
        (record {
          rb_start = idle.feeds.rb_start;
          rb_size = idle.feeds.rb_size;
          head_reg = idle.feeds.head_reg;
          tail_reg = idle.feeds.tail_reg;
          position = refl;
        });
  outgoing =
      rw (ed, es)
        (record {
          rb_start = idle.outgoing.rb_start;
          rb_size = idle.outgoing.rb_size;
          head_reg = idle.outgoing.head_reg;
          tail_reg = idle.outgoing.tail_reg;
          intr_reg = idle.outgoing.intr_reg;
          position = refl;
        });
  drained = rw es refl;
  read_all = rw es refl;
  in_ring = omega (arith, ap (λ (c : XdnaChannel). c.x2i_tail) es, fits);
}

-- The driver has the reply, and is at rest with the device, of which only channel 0 has changed since
-- the reply to the firmware's work `before`.
pub record Replied (op : ℕ) (reply : List ℕ) (d : Drv) (before : XdnaNpu)
    (r : Option Received × Drv × XdnaNpu) : Type 0 where
  pub answer :
      r.0 ≡ some (record { hdr = message_header (length reply) (request_id d) op; resp = reply })
  pub idle : Idle r.1 r.2
  pub table : SameTable before r.2
  pub others : (j : ℕ) → j ≢ 0 → r.2.chan j ≡ before.chan j
  pub next_id : r.1.next_id ≡ add32 d.next_id 1

module _ (op : ℕ) (req reply : List ℕ) (d : Drv) (s : XdnaNpu) (idle : Idle d s)
    (opcode : op < 2 ^ 32) (some_bytes : 0 < length reply) (short : length reply ≤ 128)
    (handed : Handed op req d s) (before : XdnaNpu) (same : before.chan 0 ≡ handed.u.chan 0)
    (v : Safe before)
    (answered : xdna_mert_handle 0 (request_header op req d) req handed.u
      ≡ mert_reply 0 (request_header op req d) reply before) where
  abbrev hdr : XdnaMsgHeader
  hdr = request_header op req d

  abbrev asking : Drv
  asking = advance handed.end d

  abbrev t : XdnaNpu
  t = (xdna_mbox_send 0 (request_id d) op reply before).1

  b-chan : before.chan 0 ≡ record (s.chan 0) { x2i_head = handed.end; x2i_tail = handed.end }
  b-chan = same ∙ handed.chan

  b-active : (before.chan 0).active ≡ true
  b-active = ap (λ (c : XdnaChannel). c.active) b-chan ∙ idle.active

  b-read_all : (before.chan 0).i2x_head ≡ (before.chan 0).i2x_tail
  b-read_all = rw b-chan idle.read_all

  fits : length reply + header_size + 4 ≤ ring_size 0
  fits = omega (arith, short)

  room : is_full (before.chan 0) (package_size reply) ≡ false
  room =
      let size = (v.0.rings 0 (omega arith) b-active).i2x_size in
      ground (arith, size, b-read_all, short)

  t-chan : t.chan 0 ≡ record (s.chan 0) {
    x2i_head = handed.end;
    x2i_tail = handed.end;
    i2x_tail = (t.chan 0).i2x_tail;
    intr = 1;
  }
  t-chan =
      let k = sent-chan 0 (request_id d) op reply before (omega arith) b-active v fits room in
      let tail = ap (λ (c : XdnaChannel). c.i2x_tail) k in
      k
      ∙ (λ j. record (b-chan j) {
        i2x_tail = add32 (write_tail (before.chan 0) (package_size reply)) (package_size reply);
        intr = 1;
      })
      ∙ sym (λ j. record (s.chan 0) {
        x2i_head = handed.end;
        x2i_tail = handed.end;
        i2x_tail = tail j;
        intr = 1;
      })

  received :
      IsTaken 0
        (message_header (length reply) (request_id d) op)
        reply
        asking
        t
        (mbox_recv (length reply) asking t)
  received =
      accepted-IsTaken 0 (request_id d) op reply before asking (omega arith) b-active v
        (rw b-chan (record {
          rb_start = idle.outgoing.rb_start;
          rb_size = idle.outgoing.rb_size;
          head_reg = idle.outgoing.head_reg;
          tail_reg = idle.outgoing.tail_reg;
          intr_reg = idle.outgoing.intr_reg;
          position = idle.outgoing.position;
        }))
        b-read_all fits room some_bytes
        (record {
          total_size = omega (arith, short);
          sz_ver = masked_word (length reply) msg_body_sz_mask 0x10000 (2 ^ 32) (omega arith);
          id = masked_word d.next_id 0xFF mbox_magic_val (2 ^ 32) (omega arith);
          opcode = opcode;
        })

  runs : mbox_send_recv op req (length reply) d s ≡ mbox_recv (length reply) asking t
  unfolding mbox_send_recv mert_reply
  runs =
      ap (await_reply (length reply))
        (handed.reached ∙ (λ k. (some (request_id d), asking, answered k)))

  pub replied : Replied op reply d before (mbox_send_recv op req (length reply) d s)
  unfolding mert_reply
  replied =
      let c = reply-SameTable 0 hdr reply before in
      rw runs (record {
        answer = received.got;
        idle =
            rest-Idle d s _ _ handed.end (t.chan 0).i2x_tail (add32 d.next_id 1) idle received.drv
              (received.here
                ∙ (λ k. record (t-chan k) { i2x_head = (t.chan 0).i2x_tail; intr = 0 }))
              handed.in_ring received.safe;
        table = record {
          ctx = ap (λ (x : XdnaNpu). x.ctx) received.npu ∙ c.ctx;
          next = ap (λ (x : XdnaNpu). x.next_ctx_id) received.npu ∙ c.next;
          counted = ap (λ (x : XdnaNpu). x.stats.active_contexts) received.npu ∙ c.counted;
          config = ap (λ (x : XdnaNpu). x.rt_cfg) received.npu ∙ c.config;
        };
        others = λ j o. received.others j o ∙ send-other 0 (request_id d) op reply before j o;
        next_id = ap (λ (x : Drv). x.next_id) received.drv;
      })
