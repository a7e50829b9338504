-- ===== src/Mailbox/Others.antt =====
-- The channels that `xdna_mbox_send` leaves alone: all but the one it sends on.
use xdna1_npu_emulator.Prelude.{
  ℕ, ◌+◌, ◌≡◌, refl, ◌∙◌, ◌≢◌, Bool, not, List, ltb, leb, ne→==, if_keeps, length, add32,
}
use xdna1_npu_emulator.State.{XdnaNpu, max_channels, log_error}
use xdna1_npu_emulator.Mailbox.Send.{
  message_header, usable_size, package_size, write_tail, is_full, put_tombstone, put_message,
  set_tail, deliver, xdna_mbox_send,
}
use xdna1_npu_emulator.Invariant.Basic.{xdna_log-keeps}
use xdna1_npu_emulator.Invariant.Send.{put_tombstone-chan, put_message-chan, notify-keeps}

module _ (i id opcode : ℕ) (payload : List ℕ) (s : XdnaNpu) (j : ℕ) (other : j ≢ i) where
  abbrev Kept : XdnaNpu → Type 0
  Kept t = t.chan j ≡ s.chan j

  deliver-other : Kept (deliver i id opcode payload s)
  unfolding deliver
  deliver-other =
      let c = s.chan i in
      let pkg = package_size payload in
      let at = c.i2x_buf + write_tail c pkg in
      let hdr = message_header (length payload) id opcode in
      let t = put_tombstone c pkg s in
      let placed = put_message at hdr payload t in
      let tail = add32 (write_tail c pkg) pkg in
      let same : placed.chan ≡ s.chan =
        put_message-chan at hdr payload t ∙ put_tombstone-chan c pkg s in
      let p : Kept (set_tail i tail placed) = rw (ne→== j i other) (λ k. same k j) in
      notify-keeps Kept i (set_tail i tail placed) p p

  pub send-other : Kept (xdna_mbox_send i id opcode payload s).1
  unfolding xdna_mbox_send
  send-other =
      let c = s.chan i in
      let pkg = package_size payload in
      let t = put_tombstone c pkg s in
      let P : Bool × XdnaNpu → Type 0 = λ (o : Bool × XdnaNpu). Kept o.1 in
      let marked : Kept t = λ k. put_tombstone-chan c pkg s k j in
      if_keeps P (leb max_channels i) refl (
        if_keeps P (not c.active) refl (
          if_keeps P (ltb (usable_size c) pkg) (xdna_log-keeps Kept log_error s refl refl) (
            if_keeps P (is_full c pkg) (xdna_log-keeps Kept log_error t marked marked)
              deliver-other)))
