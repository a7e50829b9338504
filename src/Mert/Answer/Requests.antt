-- ===== src/Mert/Answer/Requests.antt =====
-- src/xdna_mert.c: every handler of a request answers it.
use xdna1_npu_emulator.Prelude.{
  ℕ, suc, ◌<◌, ◌≡◌, refl, ◌≢◌, ◌⊎◌, inl, inr, Bool, ◌||◌, Option, none, some, List, arith, ltb, leb,
  ◌==◌, if◌then◌else◌, lt→ltb, Option-cases, if_keeps, u32_at,
}
use xdna1_npu_emulator.Regs.{npu1_hwctx_limit, aie_cols}
use xdna1_npu_emulator.Regs.Opcodes.{
  msg_op_create_context, msg_op_query_col_status, msg_op_get_runtime_config, aie2_status_success,
  aie2_status_aie_dma_error, aie2_status_mgmt_ert_noavail, aie2_status_mgmt_ert_invalid_param,
  aie2_status_invalid_input_buffer, aie2_status_invalid_param,
}
use xdna1_npu_emulator.State.{
  HostEvent, XdnaMsgHeader, XdnaNpu, log_error, log_warn, log_info, log_debug, xdna_log,
}
use xdna1_npu_emulator.Mailbox.Channel.{xdna_mbox_channel_reset}
use xdna1_npu_emulator.Mert.Wire.{
  runtime_cfg_bytes, create_ctx_bytes, column_info_bytes, set_runtime_cfg_req, CreateCtxReq,
  create_ctx_req, map_host_buffer_req, ColumnInfoReq, column_info_req,
}
use xdna1_npu_emulator.Mert.Reply.{resp_size_for, mert_reply_status}
use xdna1_npu_emulator.Mert.Context.{
  has_id, ctx_by_id, free_slot, open_channel, fill_slot, create_resp, create_in,
  handle_create_context, release_slot, destroy_slot, handle_destroy_context, set_heap,
  handle_map_host_buffer,
}
use xdna1_npu_emulator.Mert.Dump.{run_dump, dump_status, reply_column_info, handle_query_col_status}
use xdna1_npu_emulator.Mert.Slots.{first_slot-some}
use xdna1_npu_emulator.Mert.Kept.{has_id-valid}
use xdna1_npu_emulator.Invariant.{Inv}
use xdna1_npu_emulator.Mert.Answer.{
  Quiet, still, Quiet-trans, Answered, log-Quiet, reset-Quiet, open_channel-Quiet, dump_loop-Quiet,
  answer, answer_status,
}
use xdna1_npu_emulator.Mert.{
  rt_cfg_count, handle_set_runtime_config, runtime_config, handle_get_runtime_config,
  handle_assign_mgmt_pasid, handle_register_async_event,
}

module _ (chan : ℕ) (hdr : XdnaMsgHeader) (payload : List ℕ) (s : XdnaNpu) where
  abbrev Ok : XdnaNpu → Type 0
  Ok t = Answered chan hdr s t

  pub refuse : (status : ℕ) → Ok (mert_reply_status chan hdr status s)
  refuse status = answer_status chan hdr s s status (still s)

  pub refuse_logged : (level status : ℕ) → Ok (mert_reply_status chan hdr status (xdna_log level s))
  refuse_logged level status = answer_status chan hdr s _ status (log-Quiet level s)

  pub create_answers :
      hdr.opcode ≡ msg_op_create_context → Ok (handle_create_context chan hdr payload s)
  unfolding handle_create_context create_in resp_size_for
  create_answers e =
      if_keeps Ok (ltb hdr.total_size 28) (refuse aie2_status_invalid_input_buffer)
        (found (free_slot s))
    where
      req : CreateCtxReq
      req = create_ctx_req payload

      created_quiet :
          (slot : ℕ) → Quiet s (xdna_log log_info (fill_slot slot req (open_channel slot s)))
      created_quiet slot =
          let filled : Quiet s (fill_slot slot req (open_channel slot s)) =
            Quiet-trans (open_channel-Quiet slot s) (record { unsent = refl; mgmt = refl }) in
          Quiet-trans filled (log-Quiet log_info _)

      found :
          (o : Option ℕ)
          → Ok (elim o [
            | none ↦ mert_reply_status chan hdr aie2_status_mgmt_ert_noavail (xdna_log log_error s)
            | some slot ↦
                if req.num_col == 0 || ltb aie_cols req.num_col
                then mert_reply_status chan hdr aie2_status_mgmt_ert_invalid_param s
                else create_in slot req chan hdr s
          ])
      found none = refuse_logged log_error aie2_status_mgmt_ert_noavail
      found (some slot) =
          if_keeps Ok (req.num_col == 0 || ltb aie_cols req.num_col)
            (refuse aie2_status_mgmt_ert_invalid_param)
            (answer chan hdr s _ msg_op_create_context
              (create_ctx_bytes (create_resp slot s.next_ctx_id)) e refl (created_quiet slot))

  pub destroy_answers : Inv s → Ok (handle_destroy_context chan hdr payload s)
  unfolding handle_destroy_context destroy_slot
  destroy_answers w =
      if_keeps Ok (ltb hdr.total_size 4) (refuse aie2_status_invalid_input_buffer)
        (slot_case (Option-cases (ctx_by_id (u32_at payload 0) s)))
    where
      Found : Option ℕ → Type 0
      Found o = Ok (elim o [
        | none ↦
            mert_reply_status chan hdr aie2_status_mgmt_ert_invalid_param (xdna_log log_error s)
        | some slot ↦ mert_reply_status chan hdr aie2_status_success (destroy_slot slot s)
      ])

      destroyed_quiet : (slot : ℕ) → (s.ctx slot).chan ≢ 0 → Quiet s (destroy_slot slot s)
      destroyed_quiet slot other =
          let released : Quiet s (release_slot slot (xdna_mbox_channel_reset (s.ctx slot).chan s)) =
            Quiet-trans (reset-Quiet (s.ctx slot).chan s other)
              (record { unsent = refl; mgmt = refl }) in
          Quiet-trans released (log-Quiet log_info _)

      slot_case :
          (ctx_by_id (u32_at payload 0) s ≡ none)
            ⊎ ((slot : ℕ) × (ctx_by_id (u32_at payload 0) s ≡ some slot))
          → Found (ctx_by_id (u32_at payload 0) s)
      slot_case (inl e) = rw e (refuse_logged log_error aie2_status_mgmt_ert_invalid_param)
      slot_case (inr (slot, e)) =
          let f = first_slot-some (has_id (u32_at payload 0)) s.ctx 0 npu1_hwctx_limit slot e in
          let at : (s.ctx slot).chan ≡ suc slot =
            w.ctx_chan slot f.below (has_id-valid _ (s.ctx slot) f.passes) in
          rw e (
            answer_status chan hdr s _ aie2_status_success
              (destroyed_quiet slot (λ z. absurd (omega (arith, z, at)))))

  pub map_answers : Ok (handle_map_host_buffer chan hdr payload s)
  unfolding handle_map_host_buffer
  map_answers =
      if_keeps Ok (ltb hdr.total_size 20) (refuse aie2_status_invalid_input_buffer)
        (found (ctx_by_id (map_host_buffer_req payload).context_id s))
    where
      found :
          (o : Option ℕ)
          → Ok (elim o [
            | none ↦ mert_reply_status chan hdr aie2_status_mgmt_ert_invalid_param s
            | some slot ↦
                mert_reply_status chan hdr aie2_status_success
                  (xdna_log log_info (set_heap slot (map_host_buffer_req payload) s))
          ])
      found none = refuse aie2_status_mgmt_ert_invalid_param
      found (some slot) =
          answer_status chan hdr s _ aie2_status_success
            (Quiet-trans (record { unsent = refl; mgmt = refl }) (log-Quiet log_info _))

  pub col_status_answers :
      hdr.opcode ≡ msg_op_query_col_status → Ok (handle_query_col_status chan hdr payload s)
  unfolding handle_query_col_status resp_size_for
  col_status_answers e =
      if_keeps Ok (ltb hdr.total_size 20) (refuse aie2_status_invalid_input_buffer) (
        if_keeps Ok (req.dump_buff_addr == 0 || req.dump_buff_size == 0)
          (info aie2_status_invalid_param 0 s (still s)) (with_dma s.ops.dma_write))
    where
      req : ColumnInfoReq
      req = column_info_req payload

      info :
          (status size : ℕ) (t : XdnaNpu)
          → Quiet s t
          → Ok (reply_column_info chan hdr status size t)
      info status size t q =
          answer chan hdr s t msg_op_query_col_status
            (column_info_bytes (record { status = status; size = size })) e refl q

      with_dma :
          (o : Option (List HostEvent → ℕ → List ℕ → Bool))
          → Ok (elim o [
            | none ↦ reply_column_info chan hdr aie2_status_aie_dma_error 0 s
            | some write_dma ↦
                let d = run_dump write_dma req s in
                reply_column_info chan hdr (dump_status d req.dump_buff_size) d.done d.npu
          ])
      with_dma none = info aie2_status_aie_dma_error 0 s (still s)
      with_dma (some w) =
          let d = run_dump w req s in
          info (dump_status d req.dump_buff_size) d.done d.npu
            (dump_loop-Quiet w req.dump_buff_addr req.dump_buff_size req.dump_buff_size _)

  pub set_config_answers : Ok (handle_set_runtime_config chan hdr payload s)
  unfolding handle_set_runtime_config
  set_config_answers =
      if_keeps Ok (ltb hdr.total_size 12) (refuse aie2_status_invalid_input_buffer) (
        if_keeps Ok (leb rt_cfg_count (set_runtime_cfg_req payload).type)
          (refuse_logged log_warn aie2_status_invalid_param)
          (answer_status chan hdr s _ aie2_status_success
            (Quiet-trans (record { unsent = refl; mgmt = refl }) (log-Quiet log_debug _))))

  pub get_config_answers :
      hdr.opcode ≡ msg_op_get_runtime_config → Ok (handle_get_runtime_config chan hdr payload s)
  unfolding handle_get_runtime_config resp_size_for
  get_config_answers e =
      if_keeps Ok (ltb hdr.total_size 4) (refuse aie2_status_invalid_input_buffer) (
        answer chan hdr s s msg_op_get_runtime_config
          (runtime_cfg_bytes (runtime_config (u32_at payload 0) s)) e refl (still s))

  pub pasid_answers : Ok (handle_assign_mgmt_pasid chan hdr payload s)
  unfolding handle_assign_mgmt_pasid
  pasid_answers = if_keeps Ok (ltb hdr.total_size 4) (refuse aie2_status_invalid_input_buffer) (
      answer_status chan hdr s _ aie2_status_success
        (Quiet-trans (record { unsent = refl; mgmt = refl }) (log-Quiet log_info _)))

  pub short_registration : hdr.total_size < 12 → Ok (handle_register_async_event chan hdr payload s)
  unfolding handle_register_async_event
  short_registration h = rw (lt→ltb hdr.total_size 12 h) (refuse aie2_status_invalid_input_buffer)
