-- ===== src/Mert/Lifecycle.antt =====
-- src/xdna_mert.c: a context from its creation to its destruction.
use xdna1_npu_emulator.Prelude.{
  ℕ, ◌+◌, ◌≤◌, ◌<◌, ◌≡◌, refl, ap, ◌∙◌, true, List, arith, le→ltb, ne→==, add32,
}
use xdna1_npu_emulator.Regs.{sram_ctx_rb_size, sram_ctx_rb_stride, npu1_hwctx_limit, aie_cols}
use xdna1_npu_emulator.State.{XdnaMsgHeader, XdnaContext, XdnaNpu, update, log_info}
use xdna1_npu_emulator.Mert.Wire.{create_ctx_bytes, CreateCtxReq, create_ctx_req}
use xdna1_npu_emulator.Mert.Context.{
  is_free, slot_rb_base, open_channel, fill_slot, create_resp, create_in, handle_create_context,
}
use xdna1_npu_emulator.Mert.Slots.{IsFirst, first_slot-finds}
use xdna1_npu_emulator.Mailbox.Channel.{xdna_mbox_channel_reset}
use xdna1_npu_emulator.Mert.Table.{
  SameTable, SameTable-trans, log-SameTable, clear-SameTable, reset-SameTable, reply-SameTable,
}

-- A request that asks for one to five columns, in a message that is long enough.
pub record ValidCreate (hdr : XdnaMsgHeader) (payload : List ℕ) : Type 0 where
  pub long : 28 ≤ hdr.total_size
  pub some_col : 0 < (create_ctx_req payload).num_col
  pub in_array : (create_ctx_req payload).num_col ≤ aie_cols

-- `slot` is the lowest free slot.
abbrev pub LowestFree : XdnaNpu → ℕ → Type 0
LowestFree s slot = IsFirst is_free s.ctx 0 npu1_hwctx_limit slot

abbrev pub new_context : ℕ → CreateCtxReq → ℕ → XdnaContext
new_context slot req id = record {
  valid = true;
  id = id;
  pasid = req.pasid;
  start_col = req.start_col;
  num_col = req.num_col;
  priority = req.context_priority;
  chan = slot + 1;
  heap_addr = 0;
  heap_size = 0;
}

open-SameTable : (slot : ℕ) (s : XdnaNpu) → SameTable s (open_channel slot s)
unfolding open_channel
open-SameTable slot s =
    let r = reset-SameTable (slot + 1) s in
    let mid : XdnaNpu = xdna_mbox_channel_reset (slot + 1) s in
    let idx = slot + 1 in
    let u : XdnaNpu = record mid {
      chan = update mid.chan idx (record (mid.chan idx) {
        active = true;
        index = idx;
        x2i_buf = slot_rb_base slot;
        x2i_size = sram_ctx_rb_size;
        i2x_buf = slot_rb_base slot + sram_ctx_rb_size;
        i2x_size = sram_ctx_rb_size;
      });
    } in
    let a : SameTable s u = record {
      ctx = r.ctx;
      next = r.next;
      counted = r.counted;
      config = r.config;
    } in
    SameTable-trans a (clear-SameTable (slot_rb_base slot) sram_ctx_rb_stride u)

module _ (chan : ℕ) (hdr : XdnaMsgHeader) (payload : List ℕ) (s : XdnaNpu) (slot : ℕ)
    (ok : ValidCreate hdr payload) (first : LowestFree s slot) where
  pub create_runs :
      handle_create_context chan hdr payload s ≡ create_in slot (create_ctx_req payload) chan hdr s
  unfolding handle_create_context
  create_runs =
      let n = (create_ctx_req payload).num_col in
      rw
        (
          le→ltb hdr.total_size 28 ok.long,
          first_slot-finds is_free s.ctx 0 npu1_hwctx_limit slot first,
          ne→== n 0 (λ e. absurd (omega (arith, ok.some_col))),
          le→ltb aie_cols n ok.in_array,
        )
        refl

  -- A valid request fills the lowest free slot, with the fields of the request, the next id, the
  -- channel of the slot and no heap; the other slots are as before, the id is used up, and the
  -- context is counted.
  pub create_fills_slot :
      let t = handle_create_context chan hdr payload s in
      (t.ctx ≡ update s.ctx slot (new_context slot (create_ctx_req payload) s.next_ctx_id))
      × (t.next_ctx_id ≡ add32 s.next_ctx_id 1)
      × (t.stats.active_contexts ≡ add32 s.stats.active_contexts 1)
  unfolding create_in
  create_fills_slot =
      let req = create_ctx_req payload in
      let o = open-SameTable slot s in
      let filled = fill_slot slot req (open_channel slot s) in
      let after =
        SameTable-trans (log-SameTable log_info filled)
          (reply-SameTable chan hdr (create_ctx_bytes (create_resp slot s.next_ctx_id)) _) in
      rw create_runs (
        after.ctx ∙ (λ i. update (o.ctx i) slot (new_context slot req (o.next i))),
        after.next ∙ ap (λ (n : ℕ). add32 n 1) o.next,
        after.counted ∙ ap (λ (n : ℕ). add32 n 1) o.counted,
      )
