-- ===== src/Mailbox/Management.antt =====
-- src/xdna_mailbox.c and src/xdna_mert.c: handling a message of the management channel leaves the
-- incoming ring of that channel alone.
use xdna1_npu_emulator.Prelude.{
  ℕ, ◌+◌, ◌<◌, ◌≡◌, refl, ap, ◌∙◌, inl, inr, Bool, true, not, List, arith, ltb, if_keeps, length,
  add32, add64,
}
use xdna1_npu_emulator.Regs.{sram_mgmt_i2x_off, npu1_hwctx_limit}
use xdna1_npu_emulator.Mem.{Mem, fill_bytes}
use xdna1_npu_emulator.State.{irq, XdnaChannel, XdnaNpu, log_error, emit, xdna_log, clear}
use xdna1_npu_emulator.Mert.Wire.{CreateCtxReq}
use xdna1_npu_emulator.Mert.Reply.{mert_reply}
use xdna1_npu_emulator.Mert.Context.{open_channel, fill_slot, release_slot}
use xdna1_npu_emulator.Mert.Kept.{Kept}
use xdna1_npu_emulator.Mailbox.Channel.{xdna_mbox_channel_reset}
use xdna1_npu_emulator.Mailbox.Send.{
  message_header, usable_size, package_size, write_tail, is_full, put_tombstone, put_message,
  set_tail, deliver, xdna_mbox_send,
}
use xdna1_npu_emulator.Invariant.{Safe}
use xdna1_npu_emulator.Invariant.Basic.{xdna_log-keeps}
use xdna1_npu_emulator.Invariant.Send.{put_tombstone-chan, put_message-chan, notify-keeps}
use xdna1_npu_emulator.Invariant.Mert.{Safe-Kept}
use xdna1_npu_emulator.Mailbox.Outside.{put_tombstone-outside, put_message-outside}

-- The incoming side of channel 0: the channel is open, its positions are as given, and the memory
-- up to the outgoing ring is `m`.
pub record Incoming (first last : ℕ) (m : Mem) (s : XdnaNpu) : Type 0 where
  pub active : (s.chan 0).active ≡ true
  pub head : (s.chan 0).x2i_head ≡ first
  pub tail : (s.chan 0).x2i_tail ≡ last
  pub ring : (a : ℕ) → a < sram_mgmt_i2x_off → s.sram a ≡ m a

module _ (first last : ℕ) (m : Mem) where
  log-Incoming :
      (level : ℕ) (s : XdnaNpu) → Incoming first last m s → Incoming first last m (xdna_log level s)
  log-Incoming level s g =
      xdna_log-keeps (Incoming first last m) level s g
        (record { active = g.active; head = g.head; tail = g.tail; ring = g.ring })

  -- Steps that keep the channels and the memory below the outgoing ring.
  same-Incoming :
      (s t : XdnaNpu)
      → t.chan ≡ s.chan
      → ((a : ℕ) → a < sram_mgmt_i2x_off → t.sram a ≡ s.sram a)
      → Incoming first last m s
      → Incoming first last m t
  same-Incoming s t e keeps g = record {
    active = ap (λ (f : ℕ → XdnaChannel). (f 0).active) e ∙ g.active;
    head = ap (λ (f : ℕ → XdnaChannel). (f 0).x2i_head) e ∙ g.head;
    tail = ap (λ (f : ℕ → XdnaChannel). (f 0).x2i_tail) e ∙ g.tail;
    ring = λ a h. keeps a h ∙ g.ring a h;
  }

  tombstone-Incoming :
      (pkg : ℕ) (s : XdnaNpu)
      → Safe s
      → Incoming first last m s
      → Incoming first last m (put_tombstone (s.chan 0) pkg s)
  tombstone-Incoming pkg s v g =
      let c = s.chan 0 in
      let buf : c.i2x_buf ≡ sram_mgmt_i2x_off = (v.0.rings 0 (omega arith) g.active).i2x_buf in
      let place = (v.1.in_ring 0 (omega arith) g.active).1 in
      same-Incoming s (put_tombstone c pkg s) (put_tombstone-chan c pkg s)
        (λ a h. put_tombstone-outside c pkg s a (inr (inl (omega (arith, buf, place))))) g

  send-Incoming :
      (id opcode : ℕ) (payload : List ℕ) (s : XdnaNpu)
      → Safe s
      → Incoming first last m s
      → Incoming first last m (xdna_mbox_send 0 id opcode payload s).1
  unfolding xdna_mbox_send deliver
  send-Incoming id opcode payload s v g =
      let c = s.chan 0 in
      let buf : c.i2x_buf ≡ sram_mgmt_i2x_off = (v.0.rings 0 (omega arith) g.active).i2x_buf in
      let pkg = package_size payload in
      let at = c.i2x_buf + write_tail c pkg in
      let hdr = message_header (length payload) id opcode in
      let t = put_tombstone c pkg s in
      let a : Incoming first last m t = tombstone-Incoming pkg s v g in
      let placed = put_message at hdr payload t in
      let b : Incoming first last m placed =
        same-Incoming t placed (put_message-chan at hdr payload t)
          (λ x h. put_message-outside at hdr payload t x (inl (omega (arith, buf)))) a in
      let end = add32 (write_tail c pkg) pkg in
      let d : Incoming first last m (set_tail 0 end placed) = record {
        active = b.active;
        head = b.head;
        tail = b.tail;
        ring = b.ring;
      } in
      let e : Incoming first last m
          (record (emit (irq ((set_tail 0 end placed).chan 0).index) (set_tail 0 end placed)) {
            stats = record (set_tail 0 end placed).stats {
              irqs_raised = add64 (set_tail 0 end placed).stats.irqs_raised 1;
            };
          }) =
        record { active = b.active; head = b.head; tail = b.tail; ring = b.ring } in
      let P : Bool × XdnaNpu → Type 0 = λ (o : Bool × XdnaNpu). Incoming first last m o.1 in
      if_keeps P (not c.active) g (
        if_keeps P (ltb (usable_size c) pkg) (log-Incoming log_error s g) (
          if_keeps P (is_full c pkg) (log-Incoming log_error t a)
            (notify-keeps (Incoming first last m) 0 (set_tail 0 end placed) d e)))

  create-Incoming :
      (slot : ℕ) (req : CreateCtxReq) (s : XdnaNpu)
      → Incoming first last m s
      → Incoming first last m (fill_slot slot req (open_channel slot s))
  unfolding open_channel clear fill_bytes xdna_mbox_channel_reset
  create-Incoming slot req s g = record {
    active = ground (arith, g.active);
    head = ground (arith, g.head);
    tail = ground (arith, g.tail);
    ring = λ a h. ground (arith, g.ring a h);
  }

  destroy-Incoming :
      (slot : ℕ) (s : XdnaNpu)
      → slot < npu1_hwctx_limit
      → (s.ctx slot).valid ≡ true
      → Safe s
      → Incoming first last m s
      → Incoming first last m (release_slot slot (xdna_mbox_channel_reset (s.ctx slot).chan s))
  unfolding xdna_mbox_channel_reset
  destroy-Incoming slot s h taken v g =
      let own = v.0.ctx_chan slot h taken in
      record {
        active = ground (arith, g.active, own);
        head = ground (arith, g.head, own);
        tail = ground (arith, g.tail, own);
        ring = λ a l. ground (arith, g.ring a l);
      }

  pub Incoming-Kept : Kept 0 (λ s. Safe s × Incoming first last m s)
  unfolding mert_reply
  Incoming-Kept =
      let k = Safe-Kept 0 in
      record {
        log = λ level s p. (k.log level s p.0, log-Incoming level s p.1);
        reply = λ hdr payload s small p.
            (k.reply hdr payload s small p.0, send-Incoming hdr.id hdr.opcode payload s p.0 p.1);
        config = λ f s p. (p.0, same-Incoming s _ refl (λ a h. refl) p.1);
        pasid = λ w s p. (p.0, same-Incoming s _ refl (λ a h. refl) p.1);
        suspended = λ b s p. (p.0, same-Incoming s _ refl (λ a h. refl) p.1);
        async = λ addr size s p. (p.0, same-Incoming s _ refl (λ a h. refl) p.1);
        dma = λ addr bytes s p. (p.0, same-Incoming s _ refl (λ a h. refl) p.1);
        create =
            λ slot req s h free p. (k.create slot req s h free p.0, create-Incoming slot req s p.1);
        destroy = λ slot s h taken p.
            (k.destroy slot s h taken p.0, destroy-Incoming slot s h taken p.0 p.1);
        heap = λ slot req s p. (k.heap slot req s p.0, same-Incoming s _ refl (λ a h. refl) p.1);
      }
