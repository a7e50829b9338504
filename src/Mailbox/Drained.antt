-- ===== src/Mailbox/Drained.antt =====
-- src/xdna_mailbox.c and src/xdna_mert.c: the firmware leaves an empty incoming ring empty.
use xdna1_npu_emulator.Prelude.{
  ℕ, ◌+◌, ◌≡◌, refl, sym, subst, Bool, not, List, arith, ltb, leb, ◌==◌, ==→eq, if_keeps, if_elim,
  length, add32,
}
use xdna1_npu_emulator.State.{XdnaChannel, XdnaNpu, max_channels, update, log_error, clear}
use xdna1_npu_emulator.Mert.Reply.{mert_reply}
use xdna1_npu_emulator.Mert.Context.{open_channel}
use xdna1_npu_emulator.Mert.Kept.{Kept}
use xdna1_npu_emulator.Mailbox.Channel.{channel_zero, xdna_mbox_channel_reset}
use xdna1_npu_emulator.Mailbox.Send.{
  message_header, usable_size, package_size, write_tail, is_full, put_tombstone, put_message,
  set_tail, deliver, xdna_mbox_send,
}
use xdna1_npu_emulator.Invariant.Basic.{xdna_log-keeps}
use xdna1_npu_emulator.Invariant.Send.{put_tombstone-chan, put_message-chan, notify-keeps}

-- A channel whose incoming ring is empty.
abbrev pub Drained : XdnaChannel → Type 0
Drained c = c.x2i_head ≡ c.x2i_tail

module _ (i : ℕ) where
  abbrev pub DrainedAt : XdnaNpu → Type 0
  DrainedAt s = Drained (s.chan i)

  update-Drained :
      (c : ℕ → XdnaChannel) (j : ℕ) (v : XdnaChannel)
      → (i ≡ j → Drained v)
      → Drained (c i)
      → Drained (update c j v i)
  update-Drained c j v h k = if_elim Drained (i == j) (λ e. h (==→eq i j e)) (λ _. k)

  send-Drained :
      (j id opcode : ℕ) (payload : List ℕ) (s : XdnaNpu)
      → DrainedAt s
      → DrainedAt (xdna_mbox_send j id opcode payload s).1
  unfolding xdna_mbox_send deliver
  send-Drained j id opcode payload s p =
      let c = s.chan j in
      let pkg = package_size payload in
      let at = c.i2x_buf + write_tail c pkg in
      let t = put_tombstone c pkg s in
      let placed = put_message at (message_header (length payload) id opcode) payload t in
      let q : DrainedAt t =
        subst (λ (f : ℕ → XdnaChannel). Drained (f i)) (sym (put_tombstone-chan c pkg s)) p in
      let r : DrainedAt placed =
        subst (λ (f : ℕ → XdnaChannel). Drained (f i))
          (sym (put_message-chan at (message_header (length payload) id opcode) payload t)) q in
      let tail = add32 (write_tail c pkg) pkg in
      let u : DrainedAt (set_tail j tail placed) =
        update-Drained placed.chan j (record (placed.chan j) { i2x_tail = tail; intr = 1 })
          (λ e. subst (λ (k : ℕ). Drained (placed.chan k)) e r) r in
      let P : Bool × XdnaNpu → Type 0 = λ (o : Bool × XdnaNpu). DrainedAt o.1 in
      if_keeps P (leb max_channels j) p (
        if_keeps P (not c.active) p (
          if_keeps P (ltb (usable_size c) pkg) (xdna_log-keeps DrainedAt log_error s p p) (
            if_keeps P (is_full c pkg) (xdna_log-keeps DrainedAt log_error t q q)
              (notify-keeps DrainedAt j (set_tail j tail placed) u u))))

  reset-Drained : (j : ℕ) (s : XdnaNpu) → DrainedAt s → DrainedAt (xdna_mbox_channel_reset j s)
  unfolding xdna_mbox_channel_reset
  reset-Drained j s p =
      if_keeps DrainedAt (leb max_channels j) p
        (update-Drained s.chan j (record channel_zero { index = j }) (λ _. refl) p)

  open_channel-Drained : (slot : ℕ) (s : XdnaNpu) → DrainedAt s → DrainedAt (open_channel slot s)
  unfolding open_channel clear xdna_mbox_channel_reset
  open_channel-Drained slot s p = ground arith

  pub Drained-Kept : (chan : ℕ) → Kept chan DrainedAt
  unfolding mert_reply
  Drained-Kept chan = record {
    log = λ level s p. xdna_log-keeps DrainedAt level s p p;
    reply = λ hdr payload s _ p. send-Drained chan hdr.id hdr.opcode payload s p;
    config = λ f s p. p;
    pasid = λ v s p. p;
    suspended = λ b s p. p;
    async = λ addr size s p. p;
    dma = λ addr bytes s p. p;
    create = λ slot req s _ _ p. open_channel-Drained slot s p;
    destroy = λ slot s _ _ p. reset-Drained (s.ctx slot).chan s p;
    heap = λ slot req s p. p;
  }
