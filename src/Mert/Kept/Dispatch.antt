-- ===== src/Mert/Kept/Dispatch.antt =====
-- The handlers that do not manage contexts, and the dispatcher, keep what every effect keeps.
use xdna1_npu_emulator.Prelude.{
  ℕ, zero, suc, ◌+◌, inl, inr, Bool, true, false, not, ◌||◌, Option, none, some, List, arith, ltb,
  leb, ◌==◌, Bool-cases, if_keeps, replicate, add64, u16_at, u32_at,
}
use xdna1_npu_emulator.State.{
  HostEvent, write, XdnaMsgHeader, XdnaNpu, log_error, log_warn, log_info, log_debug, emit,
}
use xdna1_npu_emulator.Mert.Wire.{
  protocol_version_bytes, firmware_version_bytes, aie_version_bytes, tile_info_resp_bytes,
  runtime_cfg_bytes, column_info_bytes, telemetry_bytes, set_runtime_cfg_req, ColumnInfoReq,
  column_info_req,
}
use xdna1_npu_emulator.Regs.Opcodes.{
  aie2_status_success, aie2_status_aie_dma_error, aie2_status_invalid_input_buffer,
  aie2_status_invalid_command, aie2_status_invalid_param, aie2_status_invalid_operation,
}
use xdna1_npu_emulator.Mert.Dump.{
  DumpState, chunk_size, dump_loop, run_dump, dump_status, reply_column_info,
  handle_query_col_status,
}
use xdna1_npu_emulator.Mert.{
  rt_cfg_count, tile_info, protocol_version, firmware_version, aie_version, telemetry,
  handle_set_runtime_config, runtime_config, handle_get_runtime_config, handle_assign_mgmt_pasid,
  handle_register_async_event, dispatch, xdna_mert_handle,
}
use xdna1_npu_emulator.Mert.Kept.{Kept, status-keeps, create-keeps, destroy-keeps, map-keeps}

module _ {chan : ℕ} {P : XdnaNpu → Type 0} (k : Kept chan P) (hdr : XdnaMsgHeader) where
  dump_loop-keeps :
      (write_dma : List HostEvent → ℕ → List ℕ → Bool) (addr size fuel : ℕ) (d : DumpState)
      → P d.npu
      → P (dump_loop write_dma addr size fuel d).npu
  unfolding dump_loop
  dump_loop-keeps write_dma addr size zero d p = p
  dump_loop-keeps write_dma addr size (suc fuel) d p = elim (Bool-cases (ltb d.done size)) [
    | inl e ↦
        let at = add64 addr d.done in
        let zeros : List ℕ = replicate (chunk_size size d.done) 0 in
        let q : P (emit (write at zeros) d.npu) = k.dma at zeros d.npu p in
        elim (Bool-cases (write_dma d.npu.host at zeros)) [
          | inl w ↦
              rw (e, dump_loop, w)
                (dump_loop-keeps write_dma addr size fuel
                  (record {
                    done = d.done + chunk_size size d.done;
                    failed = false;
                    npu = emit (write at zeros) d.npu;
                  })
                  q)
          | inr w ↦ rw (e, dump_loop, w) q
        ]
    | inr e ↦ rw (e, dump_loop) p
  ]

  col_status-keeps :
      (payload : List ℕ) (s : XdnaNpu) → P s → P (handle_query_col_status chan hdr payload s)
  unfolding handle_query_col_status
  col_status-keeps payload s p =
      if_keeps P (ltb hdr.total_size 20) (status-keeps k hdr aie2_status_invalid_input_buffer s p) (
        if_keeps P (req.dump_buff_addr == 0 || req.dump_buff_size == 0)
          (info aie2_status_invalid_param 0 s p) (with_dma s.ops.dma_write))
    where
      req : ColumnInfoReq
      req = column_info_req payload

      info : (status size : ℕ) (t : XdnaNpu) → P t → P (reply_column_info chan hdr status size t)
      info status size t q =
          k.reply hdr (column_info_bytes (record { status = status; size = size })) t (omega arith)
            q

      with_dma :
          (o : Option (List HostEvent → ℕ → List ℕ → Bool))
          → P (elim o [
            | none ↦ reply_column_info chan hdr aie2_status_aie_dma_error 0 s
            | some write_dma ↦
                let d = run_dump write_dma req s in
                reply_column_info chan hdr (dump_status d req.dump_buff_size) d.done d.npu
          ])
      with_dma none = info aie2_status_aie_dma_error 0 s p
      with_dma (some w) =
          let d = run_dump w req s in
          info (dump_status d req.dump_buff_size) d.done d.npu
            (dump_loop-keeps w req.dump_buff_addr req.dump_buff_size req.dump_buff_size _ p)

  config-keeps :
      (payload : List ℕ) (s : XdnaNpu) → P s → P (handle_set_runtime_config chan hdr payload s)
  unfolding handle_set_runtime_config
  config-keeps payload s p =
      if_keeps P (ltb hdr.total_size 12) (status-keeps k hdr aie2_status_invalid_input_buffer s p) (
        if_keeps P (leb rt_cfg_count (set_runtime_cfg_req payload).type)
          (status-keeps k hdr aie2_status_invalid_param _ (k.log log_warn s p))
          (status-keeps k hdr aie2_status_success _ (k.log log_debug _ (k.config _ s p))))

  get_config-keeps :
      (payload : List ℕ) (s : XdnaNpu) → P s → P (handle_get_runtime_config chan hdr payload s)
  unfolding handle_get_runtime_config
  get_config-keeps payload s p =
      if_keeps P (ltb hdr.total_size 4) (status-keeps k hdr aie2_status_invalid_input_buffer s p)
        (k.reply hdr (runtime_cfg_bytes (runtime_config (u32_at payload 0) s)) s (omega arith) p)

  pasid-keeps :
      (payload : List ℕ) (s : XdnaNpu) → P s → P (handle_assign_mgmt_pasid chan hdr payload s)
  unfolding handle_assign_mgmt_pasid
  pasid-keeps payload s p =
      if_keeps P (ltb hdr.total_size 4) (status-keeps k hdr aie2_status_invalid_input_buffer s p) (
        status-keeps k hdr aie2_status_success _
          (k.log log_info _ (k.pasid (u16_at payload 0) s p)))

  async-keeps :
      (payload : List ℕ) (s : XdnaNpu) → P s → P (handle_register_async_event chan hdr payload s)
  unfolding handle_register_async_event
  async-keeps payload s p =
      if_keeps P (ltb hdr.total_size 12) (status-keeps k hdr aie2_status_invalid_input_buffer s p)
        (k.log log_debug _ (k.async _ _ s p))

  -- What every effect keeps, `xdna_mert_handle` keeps.
  pub handle-keeps :
      (payload : List ℕ) (s : XdnaNpu) → P s → P (xdna_mert_handle chan hdr payload s)
  unfolding xdna_mert_handle dispatch
  handle-keeps payload s p = if_keeps P (not s.fw_alive) (k.log log_error s p) (
      if_keeps P _ (k.reply hdr (protocol_version_bytes protocol_version) s (omega arith) p) (
        if_keeps P _ (k.reply hdr (firmware_version_bytes firmware_version) s (omega arith) p) (
          if_keeps P _ (k.reply hdr (aie_version_bytes aie_version) s (omega arith) p) (
            if_keeps P _
              (k.reply hdr
                (tile_info_resp_bytes (record { status = aie2_status_success; info = tile_info })) s
                (omega arith) p)
              (if_keeps P _ (config-keeps payload s p) (
                if_keeps P _ (get_config-keeps payload s p) (
                  if_keeps P _ (pasid-keeps payload s p) (
                    if_keeps P _ (status-keeps k hdr aie2_status_success _ (k.suspended true s p)) (
                      if_keeps P _
                        (status-keeps k hdr aie2_status_success _ (k.suspended false s p))
                        (if_keeps P _ (status-keeps k hdr aie2_status_success s p) (
                          if_keeps P _ (create-keeps k hdr payload s p) (
                            if_keeps P _ (destroy-keeps k hdr payload s p) (
                              if_keeps P _ (map-keeps k hdr payload s p) (
                                if_keeps P _ (async-keeps payload s p) (
                                  if_keeps P _ (col_status-keeps payload s p) (
                                    if_keeps P _
                                      (k.reply hdr (telemetry_bytes telemetry) s (omega arith) p)
                                      (if_keeps P _
                                        (status-keeps k hdr aie2_status_invalid_operation _
                                          (k.log log_warn s p))
                                        (status-keeps k hdr aie2_status_invalid_command _
                                          (k.log log_warn s p)))))))))))))))))))
