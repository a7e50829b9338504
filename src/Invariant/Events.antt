-- ===== src/Invariant/Events.antt =====
-- What the device asks of its host while it handles an access: nothing is taken back, and every
-- interrupt is that of a channel.
pub mod Access
use xdna1_npu_emulator.Prelude.{
  ℕ, ◌+◌, ◌<◌, Bool, not, List, ◌∷◌, ltb, leb, ◌==◌, leb→lt, if_keeps, if_elim, length, add32,
  u32_bytes,
}
use xdna1_npu_emulator.Regs.{bar_sram_size, sram_ctx_rb_stride, mbox_tombstone}
use xdna1_npu_emulator.State.{
  HostEvent, logged, irq, write, XdnaMsgHeader, XdnaChannel, XdnaNpu, max_channels, log_error,
  xdna_log, in_sram, touch, store, clear, xdna_sram_write32,
}
use xdna1_npu_emulator.Mailbox.Channel.{xdna_mbox_channel_reset}
use xdna1_npu_emulator.Mailbox.Send.{
  header_size, header_bytes, message_header, usable_size, package_size, wraps, write_tail, is_full,
  put_tombstone, put_message, set_tail, deliver, xdna_mbox_send,
}
use xdna1_npu_emulator.Mert.Reply.{mert_reply}
use xdna1_npu_emulator.Mert.Context.{slot_rb_base, open_channel}
use xdna1_npu_emulator.Mert.Kept.{Kept}
use xdna1_npu_emulator.Invariant.{Inv}
use xdna1_npu_emulator.Invariant.Basic.{xdna_log-keeps}
use xdna1_npu_emulator.Invariant.Send.{
  put_tombstone-Inv, put_message-Inv, notify-keeps, set_tail-Inv,
}
use xdna1_npu_emulator.Invariant.Mert.{Inv-Kept}

abbrev pub IsChannelIrq : HostEvent → Type 0
IsChannelIrq (irq vector) = vector < max_channels
IsChannelIrq e = Unit {0}

-- `now` is `before` with more events in front, whose interrupts are those of channels.
pub data Added (before : List HostEvent) : List HostEvent → Type 0 where
  unchanged : Added before before
  added :
      {now : List HostEvent} (e : HostEvent)
      → IsChannelIrq e
      → Added before now
      → Added before (e ∷ now)

-- A well-formed device that has asked for more since `before`.
abbrev pub Tracked : List HostEvent → XdnaNpu → Type 0
Tracked before s = Inv s × Added before s.host

module _ (before : List HostEvent) where
  abbrev pub Since : XdnaNpu → Type 0
  Since s = Added before s.host

  pub log-Since : (level : ℕ) (s : XdnaNpu) → Since s → Since (xdna_log level s)
  log-Since level s a = xdna_log-keeps Since level s a (added (logged level) tt a)

  pub store-Since : (off : ℕ) (bs : List ℕ) (s : XdnaNpu) → Since s → Since (store off bs s)
  unfolding store
  store-Since off bs s a = if_keeps Since (in_sram off (length bs)) a a

  pub write32-Since : (off v : ℕ) (s : XdnaNpu) → Since s → Since (xdna_sram_write32 off v s)
  unfolding xdna_sram_write32
  write32-Since off v s a =
      if_keeps Since (ltb bar_sram_size (add32 off 4)) a (store-Since off (u32_bytes v) s a)

  pub clear-Since : (off len : ℕ) (s : XdnaNpu) → Since s → Since (clear off len s)
  unfolding clear
  clear-Since off len s a = if_keeps Since (in_sram off len) a a

  pub touch-Since : (off len : ℕ) (s : XdnaNpu) → Since s → Since (touch off len s)
  unfolding touch
  touch-Since off len s a = if_keeps Since (in_sram off len) a a

  tombstone-Since :
      (c : XdnaChannel) (pkg : ℕ) (s : XdnaNpu) → Since s → Since (put_tombstone c pkg s)
  unfolding put_tombstone
  tombstone-Since c pkg s a =
      if_keeps Since (wraps c pkg) (write32-Since (add32 c.i2x_buf c.i2x_tail) mbox_tombstone s a) a

  message-Since :
      (at : ℕ) (hdr : XdnaMsgHeader) (payload : List ℕ) (s : XdnaNpu)
      → Since s
      → Since (put_message at hdr payload s)
  unfolding put_message
  message-Since at hdr payload s a =
      let first = store-Since at (header_bytes hdr) s a in
      if_keeps Since (length payload == 0) first (store-Since (at + header_size) payload _ first)

  -- The vector of an interrupt is the index of the channel.
  deliver-Since :
      (i id opcode : ℕ) (payload : List ℕ) (s : XdnaNpu)
      → i < max_channels
      → Tracked before s
      → Since (deliver i id opcode payload s)
  unfolding deliver
  deliver-Since i id opcode payload s h t =
      let c = s.chan i in
      let pkg = package_size payload in
      let at = c.i2x_buf + write_tail c pkg in
      let hdr = message_header (length payload) id opcode in
      let placed = put_message at hdr payload (put_tombstone c pkg s) in
      let tail = add32 (write_tail c pkg) pkg in
      let a : Since (set_tail i tail placed) =
        message-Since at hdr payload (put_tombstone c pkg s) (tombstone-Since c pkg s t.1) in
      let w : Inv (set_tail i tail placed) =
        set_tail-Inv i tail placed (
          put_message-Inv at hdr payload (put_tombstone c pkg s) (put_tombstone-Inv c pkg s t.0)) in
      notify-keeps Since i (set_tail i tail placed) a (added (irq _) (rw (w.index i h) h) a)

  pub send-Since :
      (i id opcode : ℕ) (payload : List ℕ) (s : XdnaNpu)
      → Tracked before s
      → Since (xdna_mbox_send i id opcode payload s).1
  unfolding xdna_mbox_send
  send-Since i id opcode payload s t =
      if_elim P (leb max_channels i) (λ _. t.1)
        λ h. if_keeps P (not c.active) t.1 (
          if_keeps P (ltb (usable_size c) pkg) (log-Since log_error s t.1) (
            if_keeps P (is_full c pkg) (log-Since log_error _ (tombstone-Since c pkg s t.1))
              (deliver-Since i id opcode payload s (leb→lt max_channels i h) t)))
    where
      c : XdnaChannel
      c = s.chan i

      pkg : ℕ
      pkg = package_size payload

      P : Bool × XdnaNpu → Type 0
      P r = Since r.1

  pub channel_reset-Since : (i : ℕ) (s : XdnaNpu) → Since s → Since (xdna_mbox_channel_reset i s)
  unfolding xdna_mbox_channel_reset
  channel_reset-Since i s a = if_keeps Since (leb max_channels i) a a

  open-Since : (slot : ℕ) (s : XdnaNpu) → Since s → Since (open_channel slot s)
  unfolding open_channel
  open-Since slot s a =
      clear-Since (slot_rb_base slot) sram_ctx_rb_stride _ (channel_reset-Since (slot + 1) s a)

  pub Tracked-Kept : (chan : ℕ) → Kept chan (Tracked before)
  unfolding mert_reply
  Tracked-Kept chan = record {
    log = λ level s t. ((Inv-Kept chan).log level s t.0, log-Since level s t.1);
    reply = λ hdr payload s small t. (
      (Inv-Kept chan).reply hdr payload s small t.0,
      send-Since chan hdr.id hdr.opcode payload s t,
    );
    config = λ f s t. t;
    pasid = λ v s t. t;
    suspended = λ b s t. t;
    async = λ addr size s t. t;
    dma = λ addr bytes s t. (t.0, added (write addr bytes) tt t.1);
    create = λ slot req s h free t.
        ((Inv-Kept chan).create slot req s h free t.0, open-Since slot s t.1);
    destroy = λ slot s h taken t.
        ((Inv-Kept chan).destroy slot s h taken t.0, channel_reset-Since (s.ctx slot).chan s t.1);
    heap = λ slot req s t. ((Inv-Kept chan).heap slot req s t.0, t.1);
  }
