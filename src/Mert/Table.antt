-- ===== src/Mert/Table.antt =====
-- src/xdna_mert.c and src/xdna_mailbox.c: what leaves the contexts and the configuration as they are.
use xdna1_npu_emulator.Prelude.{
  ℕ, ◌+◌, ◌≡◌, refl, ◌∙◌, Bool, not, List, ltb, leb, ◌==◌, if_keeps, length, add32,
}
use xdna1_npu_emulator.Regs.{bar_sram_size}
use xdna1_npu_emulator.State.{
  XdnaMsgHeader, XdnaChannel, XdnaNpu, max_channels, log_error, xdna_log, in_sram, store, clear,
  xdna_sram_write32,
}
use xdna1_npu_emulator.Mert.Reply.{mert_reply, resp_size_for, status_bytes, mert_reply_status}
use xdna1_npu_emulator.Mailbox.Channel.{xdna_mbox_channel_reset}
use xdna1_npu_emulator.Mailbox.Send.{
  header_size, header_bytes, message_header, usable_size, package_size, wraps, write_tail, is_full,
  put_tombstone, put_message, set_tail, notify, deliver, xdna_mbox_send,
}

-- The table of contexts, its next id and its counter are the same, and the runtime configuration.
pub record SameTable (s t : XdnaNpu) : Type 0 where
  pub ctx : t.ctx ≡ s.ctx
  pub next : t.next_ctx_id ≡ s.next_ctx_id
  pub counted : t.stats.active_contexts ≡ s.stats.active_contexts
  pub config : t.rt_cfg ≡ s.rt_cfg

pub SameTable-trans : {s t u : XdnaNpu} → SameTable s t → SameTable t u → SameTable s u
SameTable-trans a b = record {
  ctx = b.ctx ∙ a.ctx;
  next = b.next ∙ a.next;
  counted = b.counted ∙ a.counted;
  config = b.config ∙ a.config;
}

pub log-SameTable : (level : ℕ) (s : XdnaNpu) → SameTable s (xdna_log level s)
unfolding xdna_log
log-SameTable level s =
    if_keeps (SameTable s) s.ops.log
      (record { ctx = refl; next = refl; counted = refl; config = refl })
      (record { ctx = refl; next = refl; counted = refl; config = refl })

store-SameTable : (off : ℕ) (bs : List ℕ) (s : XdnaNpu) → SameTable s (store off bs s)
unfolding store
store-SameTable off bs s =
    if_keeps (SameTable s) (in_sram off (length bs))
      (record { ctx = refl; next = refl; counted = refl; config = refl })
      (record { ctx = refl; next = refl; counted = refl; config = refl })

pub clear-SameTable : (off len : ℕ) (s : XdnaNpu) → SameTable s (clear off len s)
unfolding clear
clear-SameTable off len s =
    if_keeps (SameTable s) (in_sram off len)
      (record { ctx = refl; next = refl; counted = refl; config = refl })
      (record { ctx = refl; next = refl; counted = refl; config = refl })

pub reset-SameTable : (i : ℕ) (s : XdnaNpu) → SameTable s (xdna_mbox_channel_reset i s)
unfolding xdna_mbox_channel_reset
reset-SameTable i s =
    if_keeps (SameTable s) (leb max_channels i)
      (record { ctx = refl; next = refl; counted = refl; config = refl })
      (record { ctx = refl; next = refl; counted = refl; config = refl })

tombstone-SameTable :
    (c : XdnaChannel) (pkg : ℕ) (s : XdnaNpu) → SameTable s (put_tombstone c pkg s)
unfolding put_tombstone xdna_sram_write32
tombstone-SameTable c pkg s =
    if_keeps (SameTable s) (wraps c pkg)
      (if_keeps (SameTable s) (ltb bar_sram_size (add32 (add32 c.i2x_buf c.i2x_tail) 4))
        (record { ctx = refl; next = refl; counted = refl; config = refl }) (store-SameTable _ _ s))
      (record { ctx = refl; next = refl; counted = refl; config = refl })

message-SameTable :
    (at : ℕ) (hdr : XdnaMsgHeader) (payload : List ℕ) (s : XdnaNpu)
    → SameTable s (put_message at hdr payload s)
unfolding put_message
message-SameTable at hdr payload s =
    let first = store-SameTable at (header_bytes hdr) s in
    if_keeps (SameTable s) (length payload == 0) first
      (SameTable-trans first (store-SameTable (at + header_size) payload _))

notify-SameTable : (i : ℕ) (s : XdnaNpu) → SameTable s (notify i s)
unfolding notify
notify-SameTable i s =
    if_keeps (SameTable s) s.ops.raise_irq
      (record { ctx = refl; next = refl; counted = refl; config = refl })
      (record { ctx = refl; next = refl; counted = refl; config = refl })

-- A reply does not touch the table.
pub reply-SameTable :
    (chan : ℕ) (hdr : XdnaMsgHeader) (payload : List ℕ) (s : XdnaNpu)
    → SameTable s (mert_reply chan hdr payload s)
unfolding mert_reply xdna_mbox_send deliver
reply-SameTable chan hdr payload s =
    let c = s.chan chan in
    let pkg = package_size payload in
    let at = c.i2x_buf + write_tail c pkg in
    let h = message_header (length payload) hdr.id hdr.opcode in
    let t = put_tombstone c pkg s in
    let a : SameTable s t = tombstone-SameTable c pkg s in
    let placed = put_message at h payload t in
    let b : SameTable s placed = SameTable-trans a (message-SameTable at h payload t) in
    let done = set_tail chan (add32 (write_tail c pkg) pkg) placed in
    let d : SameTable s done = record {
      ctx = b.ctx;
      next = b.next;
      counted = b.counted;
      config = b.config;
    } in
    let P : Bool × XdnaNpu → Type 0 = λ (o : Bool × XdnaNpu). SameTable s o.1 in
    if_keeps P (leb max_channels chan)
      (record { ctx = refl; next = refl; counted = refl; config = refl })
      (if_keeps P (not c.active) (record { ctx = refl; next = refl; counted = refl; config = refl })
        (if_keeps P (ltb (usable_size c) pkg) (log-SameTable log_error s) (
          if_keeps P (is_full c pkg) (SameTable-trans a (log-SameTable log_error t))
            (SameTable-trans d (notify-SameTable chan done)))))

pub status-SameTable :
    (chan : ℕ) (hdr : XdnaMsgHeader) (status : ℕ) (s : XdnaNpu)
    → SameTable s (mert_reply_status chan hdr status s)
unfolding mert_reply_status
status-SameTable chan hdr status s =
    if_keeps (SameTable s) (ltb 128 (resp_size_for hdr.opcode).0) (log-SameTable log_error s)
      (reply-SameTable chan hdr (status_bytes (resp_size_for hdr.opcode) status) s)
