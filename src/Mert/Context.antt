-- ===== src/Mert/Context.antt =====
-- src/xdna_mert.c: creating, finding and destroying hardware contexts.
use xdna1_npu_emulator.Prelude.{
  ℕ, zero, suc, ◌+◌, ◌-◌, ◌*◌, ◌%◌, ◌^◌, Bool, true, false, not, ◌&&◌, ◌||◌, Option, none, some,
  List, ltb, ◌==◌, if◌then◌else◌, add32, u32_at,
}
use xdna1_npu_emulator.Regs.{
  sram_ctx_rb_base, sram_ctx_rb_size, sram_ctx_rb_stride, mbox_x2i_head_off, mbox_x2i_tail_off,
  mbox_i2x_head_off, mbox_i2x_tail_off, npu1_hwctx_limit, aie_cols, mbox_chan_base,
}
use xdna1_npu_emulator.Regs.Opcodes.{
  aie2_status_success, aie2_status_mgmt_ert_noavail, aie2_status_mgmt_ert_invalid_param,
  aie2_status_invalid_input_buffer,
}
use xdna1_npu_emulator.State.{
  XdnaMsgHeader, XdnaContext, XdnaNpu, update, log_error, log_info, xdna_log, clear,
  xdna_sram_dev_addr, xdna_mbox_dev_addr,
}
use xdna1_npu_emulator.Mailbox.Channel.{xdna_mbox_channel_reset}
use xdna1_npu_emulator.Mert.Wire.{
  CqInfo, CqPair, CreateCtxResp, create_ctx_bytes, CreateCtxReq, create_ctx_req, MapHostBufferReq,
  map_host_buffer_req,
}
use xdna1_npu_emulator.Mert.Reply.{mert_reply, mert_reply_status}

-- The first of the `n` slots from `i` on that passes the test.
unfoldable pub first_slot : (XdnaContext → Bool) → (ℕ → XdnaContext) → ℕ → ℕ → Option ℕ
first_slot test ctx i zero = none
first_slot test ctx i (suc n) = if test (ctx i) then some i else first_slot test ctx (suc i) n

abbrev pub has_id : ℕ → XdnaContext → Bool
has_id id c = c.valid && c.id == id

abbrev pub is_free : XdnaContext → Bool
is_free c = not c.valid

-- `ctx_by_id`: the slot of the context, `none` for NULL.
abbrev pub ctx_by_id : ℕ → XdnaNpu → Option ℕ
ctx_by_id id s = first_slot (has_id id) s.ctx 0 npu1_hwctx_limit

-- The first loop of `handle_create_context`.
abbrev pub free_slot : XdnaNpu → Option ℕ
free_slot s = first_slot is_free s.ctx 0 npu1_hwctx_limit

abbrev pub slot_rb_base : ℕ → ℕ
slot_rb_base slot = sram_ctx_rb_base + slot * sram_ctx_rb_stride

-- Channel `slot + 1` is reset and given the rings of the slot, which are cleared.
unfoldable pub open_channel : ℕ → XdnaNpu → XdnaNpu
open_channel slot s =
    let idx = slot + 1 in
    let s' = xdna_mbox_channel_reset idx s in
    clear (slot_rb_base slot) sram_ctx_rb_stride (record s' {
      chan = update s'.chan idx (record (s'.chan idx) {
        active = true;
        index = idx;
        x2i_buf = slot_rb_base slot;
        x2i_size = sram_ctx_rb_size;
        i2x_buf = slot_rb_base slot + sram_ctx_rb_size;
        i2x_size = sram_ctx_rb_size;
      });
    })

-- The slot is filled in, the next id is used up, and the context is counted.
abbrev pub fill_slot : ℕ → CreateCtxReq → XdnaNpu → XdnaNpu
fill_slot slot req s = record s {
  ctx = update s.ctx slot (record {
    valid = true;
    id = s.next_ctx_id;
    pasid = req.pasid;
    start_col = req.start_col;
    num_col = req.num_col;
    priority = req.context_priority;
    chan = slot + 1;
    heap_addr = 0;
    heap_size = 0;
  });
  next_ctx_id = add32 s.next_ctx_id 1;
  stats = record s.stats { active_contexts = add32 s.stats.active_contexts 1 };
}

abbrev pub no_queue : CqInfo
no_queue = record { head_addr = 0; tail_addr = 0; buf_addr = 0; buf_size = 0 }

abbrev pub no_pair : CqPair
no_pair = record { x2i_q = no_queue; i2x_q = no_queue }

-- The response to a context created in the slot under the id.
abbrev pub create_resp : ℕ → ℕ → CreateCtxResp
create_resp slot id =
    let chan_base = mbox_chan_base (slot + 1) in
    record {
      status = aie2_status_success;
      context_id = id;
      msix_id = (slot + 1) % 2 ^ 16;
      num_cq_pairs_allocated = 1;
      reserved = 0;
      cq_pair0 = record {
        x2i_q = record {
          head_addr = xdna_mbox_dev_addr (chan_base + mbox_x2i_head_off);
          tail_addr = xdna_mbox_dev_addr (chan_base + mbox_x2i_tail_off);
          buf_addr = xdna_sram_dev_addr (slot_rb_base slot);
          buf_size = sram_ctx_rb_size;
        };
        i2x_q = record {
          head_addr = xdna_mbox_dev_addr (chan_base + mbox_i2x_head_off);
          tail_addr = xdna_mbox_dev_addr (chan_base + mbox_i2x_tail_off);
          buf_addr = xdna_sram_dev_addr (slot_rb_base slot + sram_ctx_rb_size);
          buf_size = sram_ctx_rb_size;
        };
      };
      cq_pair1 = no_pair;
    }

-- What `handle_create_context` does once the request has passed its tests.
unfoldable pub create_in : ℕ → CreateCtxReq → ℕ → XdnaMsgHeader → XdnaNpu → XdnaNpu
create_in slot req chan hdr s =
    mert_reply chan hdr (create_ctx_bytes (create_resp slot s.next_ctx_id))
      (xdna_log log_info (fill_slot slot req (open_channel slot s)))

unfoldable pub handle_create_context : ℕ → XdnaMsgHeader → List ℕ → XdnaNpu → XdnaNpu
handle_create_context chan hdr payload s =
    let req = create_ctx_req payload in
    if ltb hdr.total_size 28
    then mert_reply_status chan hdr aie2_status_invalid_input_buffer s
    else elim (free_slot s) [
      | none ↦ mert_reply_status chan hdr aie2_status_mgmt_ert_noavail (xdna_log log_error s)
      | some slot ↦
          if req.num_col == 0 || ltb aie_cols req.num_col
          then mert_reply_status chan hdr aie2_status_mgmt_ert_invalid_param s
          else create_in slot req chan hdr s
    ]

-- The slot is marked invalid and taken off the count.
abbrev pub release_slot : ℕ → XdnaNpu → XdnaNpu
release_slot slot s = record s {
  ctx = update s.ctx slot (record (s.ctx slot) { valid = false });
  stats = record s.stats {
    active_contexts =
        if s.stats.active_contexts == 0
        then s.stats.active_contexts
        else s.stats.active_contexts - 1;
  };
}

unfoldable pub destroy_slot : ℕ → XdnaNpu → XdnaNpu
destroy_slot slot s =
    xdna_log log_info (release_slot slot (xdna_mbox_channel_reset (s.ctx slot).chan s))

unfoldable pub handle_destroy_context : ℕ → XdnaMsgHeader → List ℕ → XdnaNpu → XdnaNpu
handle_destroy_context chan hdr payload s =
    let context_id = u32_at payload 0 in
    if ltb hdr.total_size 4
    then mert_reply_status chan hdr aie2_status_invalid_input_buffer s
    else elim (ctx_by_id context_id s) [
      | none ↦ mert_reply_status chan hdr aie2_status_mgmt_ert_invalid_param (xdna_log log_error s)
      | some slot ↦ mert_reply_status chan hdr aie2_status_success (destroy_slot slot s)
    ]

abbrev pub set_heap : ℕ → MapHostBufferReq → XdnaNpu → XdnaNpu
set_heap slot req s = record s {
  ctx =
      update s.ctx slot
        (record (s.ctx slot) { heap_addr = req.buf_addr; heap_size = req.buf_size });
}

-- MAP_HOST_BUFFER and ADD_HOST_BUFFER.
unfoldable pub handle_map_host_buffer : ℕ → XdnaMsgHeader → List ℕ → XdnaNpu → XdnaNpu
handle_map_host_buffer chan hdr payload s =
    let req = map_host_buffer_req payload in
    if ltb hdr.total_size 20
    then mert_reply_status chan hdr aie2_status_invalid_input_buffer s
    else elim (ctx_by_id req.context_id s) [
      | none ↦ mert_reply_status chan hdr aie2_status_mgmt_ert_invalid_param s
      | some slot ↦
          mert_reply_status chan hdr aie2_status_success (xdna_log log_info (set_heap slot req s))
    ]
