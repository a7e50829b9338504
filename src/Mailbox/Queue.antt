-- ===== src/Mailbox/Queue.antt =====
-- src/xdna_mailbox.c, `xdna_mbox_process`: all messages that the driver has queued on the management
-- channel.
use xdna1_npu_emulator.Prelude.{
  ℕ, zero, suc, ◌+◌, ◌≤◌, ◌<◌, bit_and, ◌≡◌, refl, sym, ap, ◌∙◌, subst, true, List, [], ◌∷◌, arith,
  eq→==, ne→==, length,
}
use xdna1_npu_emulator.Regs.{sram_mgmt_x2i_off, sram_mgmt_i2x_off, sram_mgmt_rb_size}
use xdna1_npu_emulator.Mem.{Mem}
use xdna1_npu_emulator.Mem.Laws.{read_bytes_agree}
use xdna1_npu_emulator.State.{XdnaMsgHeader, XdnaChannel, XdnaNpu}
use xdna1_npu_emulator.Mert.Kept.Dispatch.{handle-keeps}
use xdna1_npu_emulator.Mert.{xdna_mert_handle}
use xdna1_npu_emulator.Mailbox.Send.{header_size}
use xdna1_npu_emulator.Mailbox.Process.{max_msg_per_kick, consume, process_loop, xdna_mbox_process}
use xdna1_npu_emulator.Mailbox.Deliver.{MessageAt}
use xdna1_npu_emulator.Invariant.{Safe}
use xdna1_npu_emulator.Invariant.ProcessSafe.{consume-Safe}
use xdna1_npu_emulator.Mailbox.Management.{Incoming, Incoming-Kept}
use xdna1_npu_emulator.Mailbox.Incoming.{Words, AtHead, round_takes, consume-chan, consume-sram}

-- A header and a payload.
pub record Message : Type 0 where
  pub hdr : XdnaMsgHeader
  pub payload : List ℕ

-- The bytes that a message takes in a ring.
abbrev pub message_size : Message → ℕ
message_size x = header_size + length x.payload

abbrev pub total : List Message → ℕ
total [] = 0
total (x ∷ more) = message_size x + total more

abbrev pub count : List Message → ℕ
count [] = 0
count (x ∷ more) = suc (count more)

-- A message as a driver writes it: whole words, at least one, and the size in the header.
pub record Proper (x : Message) : Type 0 where
  pub words : Words x.hdr
  pub size : x.hdr.total_size ≡ length x.payload
  pub some_bytes : 0 < length x.payload
  pub aligned : bit_and (length x.payload) 3 ≡ 0

-- The messages lie in memory one behind the other, from `at` on.
abbrev pub Laid : Mem → ℕ → List Message → Type 0
Laid m at [] = Unit {0}
Laid m at (x ∷ more) = Proper x × MessageAt at x.hdr x.payload m × Laid m (at + message_size x) more

-- The firmware handles the messages in order, each one after it was taken out of the ring.
unfoldable pub handle_all : List Message → XdnaNpu → XdnaNpu
handle_all [] s = s
handle_all (x ∷ more) s =
    handle_all more (xdna_mert_handle 0 x.hdr x.payload (consume 0 (length x.payload) s))

-- Memories that agree below the outgoing ring hold the same messages there.
MessageAt-agree :
    (m k : Mem) (at : ℕ) (x : Message)
    → at + message_size x ≤ sram_mgmt_i2x_off
    → ((a : ℕ) → a < sram_mgmt_i2x_off → k a ≡ m a)
    → MessageAt at x.hdr x.payload m
    → MessageAt at x.hdr x.payload k
MessageAt-agree m k at x below same a = record {
  header = read_bytes_agree k m at header_size (λ b p q. same b (omega arith)) ∙ a.header;
  body =
      read_bytes_agree k m (at + header_size) (length x.payload) (λ b p q. same b (omega arith))
      ∙ a.body;
}

module _ (m : Mem) where
  -- The first of the messages lies at the head of the ring.
  queued-AtHead :
      (x : Message) (more : List Message) (first last : ℕ) (s : XdnaNpu)
      → Laid m (sram_mgmt_x2i_off + first) (x ∷ more)
      → first + total (x ∷ more) ≤ sram_mgmt_rb_size
      → Safe s
      → Incoming first last m s
      → AtHead 0 x.hdr x.payload s
  queued-AtHead x more first last s laid fits v g =
      let buf : (s.chan 0).x2i_buf ≡ sram_mgmt_x2i_off =
        (v.0.rings 0 (omega arith) g.active).x2i_buf in
      let place : (s.chan 0).x2i_buf + (s.chan 0).x2i_head ≡ sram_mgmt_x2i_off + first =
        omega (arith, buf, g.head) in
      record {
        channel = omega arith;
        active = g.active;
        words = laid.0.words;
        message =
            subst (λ (a : ℕ). MessageAt a x.hdr x.payload s.sram) (sym place)
              (MessageAt-agree m s.sram (sram_mgmt_x2i_off + first) x (omega (arith, fits)) g.ring
                laid.1);
        size = laid.0.size;
        some_bytes = laid.0.some_bytes;
        aligned = laid.0.aligned;
        fits = omega (arith, g.head, fits);
      }

  loop_handles :
      (xs : List Message) (n first last : ℕ) (s : XdnaNpu)
      → count xs ≤ n
      → Laid m (sram_mgmt_x2i_off + first) xs
      → first + total xs ≤ sram_mgmt_rb_size
      → last ≡ first + total xs
      → Safe s
      → Incoming first last m s
      → process_loop n 0 s ≡ handle_all xs s
  unfolding process_loop handle_all
  loop_handles [] zero first last s few laid fits end v g =
      rw (eq→== (s.chan 0).x2i_head (s.chan 0).x2i_tail (omega (arith, g.head, g.tail, end))) refl
  loop_handles [] (suc n) first last s few laid fits end v g =
      rw
        (
          eq→== (s.chan 0).x2i_head (s.chan 0).x2i_tail (omega (arith, g.head, g.tail, end)),
          process_loop,
        )
        refl
  loop_handles (x ∷ more) zero first last s few laid fits end v g = absurd (omega (arith, few))
  loop_handles (x ∷ more) (suc n) first last s few laid fits end v g =
      let len = length x.payload in
      let q = queued-AtHead x more first last s laid fits v g in
      let u = consume 0 len s in
      let t = xdna_mert_handle 0 x.hdr x.payload u in
      let chan = consume-chan 0 x.hdr x.payload s v.0 q in
      let next = first + message_size x in
      let w : Safe u × Incoming next last m u = (
        consume-Safe 0 len s (omega arith)
            (record {
              ring = v.0.rings 0 (omega arith) g.active;
              head = omega (arith, g.head, fits, (v.0.rings 0 (omega arith) g.active).x2i_size);
            })
            (omega (arith, g.head, fits)) v,
        record {
          active = ap (λ (c : XdnaChannel). c.active) chan ∙ g.active;
          head = ap (λ (c : XdnaChannel). c.x2i_head) chan ∙ omega (arith, g.head);
          tail = ap (λ (c : XdnaChannel). c.x2i_tail) chan ∙ g.tail;
          ring = λ a h. ap (λ (k : Mem). k a) (consume-sram 0 x.hdr x.payload s v.0 q) ∙ g.ring a h;
        },
      ) in
      let kept = handle-keeps (Incoming-Kept next last m) x.hdr x.payload u w in
      rw
        (
          ne→== (s.chan 0).x2i_head (s.chan 0).x2i_tail
              (λ e. absurd (omega (arith, e, g.head, g.tail, end, laid.0.some_bytes))),
          process_loop,
          round_takes 0 x.hdr x.payload s v.0 q,
        )
        (loop_handles more n next last t (omega (arith, few))
          (subst (λ (a : ℕ). Laid m a more) (omega arith) laid.2) (omega (arith, fits))
          (omega (arith, end)) kept.0 kept.1)

-- What a driver has done before it kicks the management channel: it has laid out at most 256 proper
-- messages behind the head, in a ring that they fit into, and set the tail behind the last one.
pub record QueuedAll (xs : List Message) (s : XdnaNpu) : Type 0 where
  pub active : (s.chan 0).active ≡ true
  pub few : count xs ≤ max_msg_per_kick
  pub laid : Laid s.sram (sram_mgmt_x2i_off + (s.chan 0).x2i_head) xs
  pub fits : (s.chan 0).x2i_head + total xs ≤ sram_mgmt_rb_size
  pub tail : (s.chan 0).x2i_tail ≡ (s.chan 0).x2i_head + total xs

-- One kick of the management channel handles all the messages that are queued on it, each one once,
-- in their order, and nothing else is done.
pub process_handles_all :
    (xs : List Message) (s : XdnaNpu)
    → Safe s
    → QueuedAll xs s
    → xdna_mbox_process 0 s ≡ handle_all xs s
unfolding xdna_mbox_process
process_handles_all xs s v q = rw q.active (
    loop_handles s.sram xs max_msg_per_kick (s.chan 0).x2i_head (s.chan 0).x2i_tail s q.few q.laid
      q.fits q.tail v (record { active = q.active; head = refl; tail = refl; ring = λ a h. refl }))
