-- ===== src/Mert/Answer.antt =====
-- What a request to the firmware of src/xdna_mert.c is answered with: one reply, of the size that
-- the driver expects for the opcode.
pub mod Requests
pub mod Dispatch
use xdna1_npu_emulator.Prelude.{
  ℕ, zero, suc, ◌+◌, ◌≡◌, refl, sym, ap, ◌∙◌, ◌≢◌, inl, inr, Bool, false, List, arith, ltb, leb,
  le→ltb, ne→==, Bool-cases, if_keeps, length, replicate, add64,
}
use xdna1_npu_emulator.Regs.{sram_ctx_rb_stride}
use xdna1_npu_emulator.State.{
  HostEvent, write, XdnaMsgHeader, XdnaNpu, max_channels, emit, xdna_log, in_sram, clear,
}
use xdna1_npu_emulator.Mailbox.Channel.{xdna_mbox_channel_reset}
use xdna1_npu_emulator.Mert.Reply.{mert_reply, resp_size_for, status_bytes, mert_reply_status}
use xdna1_npu_emulator.Mert.Sizes.{resp_size_bounds, length-status_reply}
use xdna1_npu_emulator.Mert.Context.{slot_rb_base, open_channel}
use xdna1_npu_emulator.Mert.Dump.{DumpState, chunk_size, dump_loop}

-- From the first state to the second no message was sent, and the management channel is the same.
pub record Quiet (s u : XdnaNpu) : Type 0 where
  pub unsent : u.stats.mbox_msgs_out ≡ s.stats.mbox_msgs_out
  pub mgmt : u.chan 0 ≡ s.chan 0

pub still : (s : XdnaNpu) → Quiet s s
still s = record { unsent = refl; mgmt = refl }

pub Quiet-trans : {s t u : XdnaNpu} → Quiet s t → Quiet t u → Quiet s u
Quiet-trans p q = record { unsent = q.unsent ∙ p.unsent; mgmt = q.mgmt ∙ p.mgmt }

-- `t` is `s` after quiet steps, and `mert_reply` with a payload of the size of the opcode.
pub record Answered (chan : ℕ) (hdr : XdnaMsgHeader) (s t : XdnaNpu) : Type 0 where
  pub payload : List ℕ
  pub before : XdnaNpu
  pub quiet : Quiet s before
  pub size : length payload ≡ (resp_size_for hdr.opcode).0
  pub reply : t ≡ mert_reply chan hdr payload before

pub log-Quiet : (level : ℕ) (s : XdnaNpu) → Quiet s (xdna_log level s)
unfolding xdna_log
log-Quiet level s = if_keeps (Quiet s) s.ops.log (record { unsent = refl; mgmt = refl }) (still s)

pub reset-Quiet : (i : ℕ) (s : XdnaNpu) → i ≢ 0 → Quiet s (xdna_mbox_channel_reset i s)
unfolding xdna_mbox_channel_reset
reset-Quiet i s other =
    if_keeps (Quiet s) (leb max_channels i) (still s)
      (record { unsent = refl; mgmt = rw (ne→== 0 i (λ e. other (sym e))) refl })

clear-Quiet : (off len : ℕ) (s : XdnaNpu) → Quiet s (clear off len s)
unfolding clear
clear-Quiet off len s =
    if_keeps (Quiet s) (in_sram off len) (record { unsent = refl; mgmt = refl })
      (record { unsent = refl; mgmt = refl })

pub open_channel-Quiet : (slot : ℕ) (s : XdnaNpu) → Quiet s (open_channel slot s)
unfolding open_channel
open_channel-Quiet slot s =
    let other : 0 ≢ slot + 1 = λ e. absurd (omega (arith, e)) in
    Quiet-trans (reset-Quiet (slot + 1) s (λ e. absurd (omega (arith, e)))) (
      Quiet-trans (record { unsent = refl; mgmt = rw (ne→== 0 (slot + 1) other) refl })
        (clear-Quiet (slot_rb_base slot) sram_ctx_rb_stride _))

pub dump_loop-Quiet :
    (w : List HostEvent → ℕ → List ℕ → Bool) (addr size fuel : ℕ) (d : DumpState)
    → Quiet d.npu (dump_loop w addr size fuel d).npu
unfolding dump_loop
dump_loop-Quiet w addr size zero d = still d.npu
dump_loop-Quiet w addr size (suc fuel) d = elim (Bool-cases (ltb d.done size)) [
  | inl e ↦
      let at = add64 addr d.done in
      let zeros : List ℕ = replicate (chunk_size size d.done) 0 in
      elim (Bool-cases (w d.npu.host at zeros)) [
        | inl a ↦
            rw (e, dump_loop, a)
              (Quiet-trans (record { unsent = refl; mgmt = refl })
                (dump_loop-Quiet w addr size fuel (record {
                  done = d.done + chunk_size size d.done;
                  failed = false;
                  npu = emit (write at zeros) d.npu;
                })))
        | inr a ↦ rw (e, dump_loop, a) (record { unsent = refl; mgmt = refl })
      ]
  | inr e ↦ rw (e, dump_loop) (still d.npu)
]

-- A reply of a size that the table gives for the opcode `op`.
pub answer :
    (chan : ℕ) (hdr : XdnaMsgHeader) (s u : XdnaNpu) (op : ℕ) (payload : List ℕ)
    → hdr.opcode ≡ op
    → length payload ≡ (resp_size_for op).0
    → Quiet s u
    → Answered chan hdr s (mert_reply chan hdr payload u)
answer chan hdr s u op payload e size quiet = record {
  payload = payload;
  before = u;
  quiet = quiet;
  size = size ∙ sym (ap (λ (o : ℕ). (resp_size_for o).0) e);
  reply = refl;
}

-- An error is reported in a reply of the full size.
pub answer_status :
    (chan : ℕ) (hdr : XdnaMsgHeader) (s u : XdnaNpu) (status : ℕ)
    → Quiet s u
    → Answered chan hdr s (mert_reply_status chan hdr status u)
unfolding mert_reply_status
answer_status chan hdr s u status quiet =
    rw (le→ltb 128 (resp_size_for hdr.opcode).0 (omega (arith, resp_size_bounds hdr.opcode))) (
      answer chan hdr s u hdr.opcode (status_bytes (resp_size_for hdr.opcode) status) refl
        (length-status_reply hdr.opcode status) quiet)
