-- ===== src/Mert/Kept.antt =====
-- A property that every effect of a firmware message keeps is kept by the dispatcher.
pub mod Dispatch
use xdna1_npu_emulator.Prelude.{
  ℕ, ◌≤◌, ◌<◌, ◌≡◌, ◌⊎◌, inl, inr, Bool, true, false, ◌||◌, Option, none, some, List, arith, ltb,
  ◌==◌, if◌then◌else◌, Option-cases, if_keeps, length, u32_at,
}
use xdna1_npu_emulator.Regs.{npu1_hwctx_limit, aie_cols}
use xdna1_npu_emulator.State.{
  write, XdnaMsgHeader, XdnaContext, XdnaNpu, log_error, log_info, emit, xdna_log,
}
use xdna1_npu_emulator.Mert.Wire.{
  create_ctx_bytes, CreateCtxReq, create_ctx_req, MapHostBufferReq, map_host_buffer_req,
}
use xdna1_npu_emulator.Mailbox.Channel.{xdna_mbox_channel_reset}
use xdna1_npu_emulator.Mert.Reply.{mert_reply, resp_size_for, status_bytes, mert_reply_status}
use xdna1_npu_emulator.Mert.Context.{
  has_id, is_free, ctx_by_id, free_slot, open_channel, fill_slot, create_resp, create_in,
  handle_create_context, release_slot, destroy_slot, handle_destroy_context, set_heap,
  handle_map_host_buffer,
}
use xdna1_npu_emulator.Regs.Opcodes.{
  aie2_status_success, aie2_status_mgmt_ert_noavail, aie2_status_mgmt_ert_invalid_param,
  aie2_status_invalid_input_buffer,
}
use xdna1_npu_emulator.Mert.Slots.{first_slot-some}
use xdna1_npu_emulator.Mert.Sizes.{resp_size_bounds, length-status_reply}

-- The effects that the handlers are made of. A property of one channel `chan` may rely on the
-- reply going there.
pub record Kept (chan : ℕ) (P : XdnaNpu → Type 0) : Type 0 where
  pub log : (level : ℕ) (s : XdnaNpu) → P s → P (xdna_log level s)
  pub reply :
      (hdr : XdnaMsgHeader) (payload : List ℕ) (s : XdnaNpu)
      → length payload ≤ 128
      → P s
      → P (mert_reply chan hdr payload s)
  pub config : (f : ℕ → ℕ) (s : XdnaNpu) → P s → P (record s { rt_cfg = f })
  pub pasid : (v : ℕ) (s : XdnaNpu) → P s → P (record s { mgmt_pasid = v })
  pub suspended : (b : Bool) (s : XdnaNpu) → P s → P (record s { fw_suspended = b })
  pub async :
      (addr size : ℕ) (s : XdnaNpu)
      → P s
      → P (record s { async_buf_addr = addr; async_buf_size = size; async_registered = true })
  pub dma : (addr : ℕ) (bytes : List ℕ) (s : XdnaNpu) → P s → P (emit (write addr bytes) s)
  pub create :
      (slot : ℕ) (req : CreateCtxReq) (s : XdnaNpu)
      → slot < npu1_hwctx_limit
      → (s.ctx slot).valid ≡ false
      → P s
      → P (fill_slot slot req (open_channel slot s))
  pub destroy :
      (slot : ℕ) (s : XdnaNpu)
      → slot < npu1_hwctx_limit
      → (s.ctx slot).valid ≡ true
      → P s
      → P (release_slot slot (xdna_mbox_channel_reset (s.ctx slot).chan s))
  pub heap : (slot : ℕ) (req : MapHostBufferReq) (s : XdnaNpu) → P s → P (set_heap slot req s)

pub has_id-valid : (id : ℕ) (c : XdnaContext) → has_id id c ≡ true → c.valid ≡ true
has_id-valid id c h = ground arith

is_free-invalid : (c : XdnaContext) → is_free c ≡ true → c.valid ≡ false
is_free-invalid c h = ground arith

module _ {chan : ℕ} {P : XdnaNpu → Type 0} (k : Kept chan P) (hdr : XdnaMsgHeader) where
  pub status-keeps : (status : ℕ) (s : XdnaNpu) → P s → P (mert_reply_status chan hdr status s)
  unfolding mert_reply_status
  status-keeps status s p =
      if_keeps P (ltb 128 (resp_size_for hdr.opcode).0) (k.log log_error s p) (
        k.reply hdr (status_bytes (resp_size_for hdr.opcode) status) s
          (omega (arith, length-status_reply hdr.opcode status, resp_size_bounds hdr.opcode)) p)

  pub create-keeps :
      (payload : List ℕ) (s : XdnaNpu) → P s → P (handle_create_context chan hdr payload s)
  unfolding handle_create_context create_in
  create-keeps payload s p =
      if_keeps P (ltb hdr.total_size 28) (status-keeps aie2_status_invalid_input_buffer s p)
        (slot_case (Option-cases (free_slot s)))
    where
      Found : Option ℕ → Type 0
      Found o = P (elim o [
        | none ↦ mert_reply_status chan hdr aie2_status_mgmt_ert_noavail (xdna_log log_error s)
        | some slot ↦
            if (create_ctx_req payload).num_col == 0
              || ltb aie_cols (create_ctx_req payload).num_col
            then mert_reply_status chan hdr aie2_status_mgmt_ert_invalid_param s
            else create_in slot (create_ctx_req payload) chan hdr s
      ])

      slot_case :
          (free_slot s ≡ none) ⊎ ((slot : ℕ) × (free_slot s ≡ some slot)) → Found (free_slot s)
      slot_case (inl e) = rw e (status-keeps aie2_status_mgmt_ert_noavail _ (k.log log_error s p))
      slot_case (inr (slot, e)) =
          let f = first_slot-some is_free s.ctx 0 npu1_hwctx_limit slot e in
          rw e (
            if_keeps P _ (status-keeps aie2_status_mgmt_ert_invalid_param s p) (
              k.reply hdr (create_ctx_bytes (create_resp slot s.next_ctx_id)) _ (omega arith) (
                k.log log_info _ (
                  k.create slot (create_ctx_req payload) s f.below
                    (is_free-invalid (s.ctx slot) f.passes) p))))

  pub destroy-keeps :
      (payload : List ℕ) (s : XdnaNpu) → P s → P (handle_destroy_context chan hdr payload s)
  unfolding handle_destroy_context destroy_slot
  destroy-keeps payload s p =
      if_keeps P (ltb hdr.total_size 4) (status-keeps aie2_status_invalid_input_buffer s p)
        (slot_case (Option-cases (ctx_by_id (u32_at payload 0) s)))
    where
      Found : Option ℕ → Type 0
      Found o = P (elim o [
        | none ↦
            mert_reply_status chan hdr aie2_status_mgmt_ert_invalid_param (xdna_log log_error s)
        | some slot ↦ mert_reply_status chan hdr aie2_status_success (destroy_slot slot s)
      ])

      slot_case :
          (ctx_by_id (u32_at payload 0) s ≡ none)
            ⊎ ((slot : ℕ) × (ctx_by_id (u32_at payload 0) s ≡ some slot))
          → Found (ctx_by_id (u32_at payload 0) s)
      slot_case (inl e) =
          rw e (status-keeps aie2_status_mgmt_ert_invalid_param _ (k.log log_error s p))
      slot_case (inr (slot, e)) =
          let f = first_slot-some (has_id (u32_at payload 0)) s.ctx 0 npu1_hwctx_limit slot e in
          rw e (
            status-keeps aie2_status_success _ (
              k.log log_info _ (k.destroy slot s f.below (has_id-valid _ (s.ctx slot) f.passes) p)))

  pub map-keeps :
      (payload : List ℕ) (s : XdnaNpu) → P s → P (handle_map_host_buffer chan hdr payload s)
  unfolding handle_map_host_buffer
  map-keeps payload s p =
      if_keeps P (ltb hdr.total_size 20) (status-keeps aie2_status_invalid_input_buffer s p)
        (slot_case (Option-cases (ctx_by_id (map_host_buffer_req payload).context_id s)))
    where
      Found : Option ℕ → Type 0
      Found o = P (elim o [
        | none ↦ mert_reply_status chan hdr aie2_status_mgmt_ert_invalid_param s
        | some slot ↦
            mert_reply_status chan hdr aie2_status_success
              (xdna_log log_info (set_heap slot (map_host_buffer_req payload) s))
      ])

      slot_case :
          (ctx_by_id (map_host_buffer_req payload).context_id s ≡ none)
            ⊎ ((slot : ℕ) × (ctx_by_id (map_host_buffer_req payload).context_id s ≡ some slot))
          → Found (ctx_by_id (map_host_buffer_req payload).context_id s)
      slot_case (inl e) = rw e (status-keeps aie2_status_mgmt_ert_invalid_param s p)
      slot_case (inr (slot, e)) = rw e (
          status-keeps aie2_status_success _
            (k.log log_info _ (k.heap slot (map_host_buffer_req payload) s p)))
