-- ===== src/Mert/Reply.antt =====
-- src/xdna_mert.c: sending a reply, and the size that each opcode's reply must have.
use xdna1_npu_emulator.Prelude.{
  ℕ, ◌-◌, ◌||◌, List, ◌++◌, ltb, ◌==◌, if◌then◌else◌, replicate, u32_bytes,
}
use xdna1_npu_emulator.Regs.Opcodes.{
  msg_op_create_context, msg_op_get_telemetry, msg_op_query_col_status, msg_op_query_aie_tile_info,
  msg_op_query_aie_version, msg_op_chain_exec_buffer_cf, msg_op_chain_exec_dpu,
  msg_op_chain_exec_npu, msg_op_get_firmware_version, msg_op_get_runtime_config,
  msg_op_register_async_event_msg, msg_op_get_app_health, msg_op_get_dev_revision,
  msg_op_get_protocol_version,
}
use xdna1_npu_emulator.State.{XdnaMsgHeader, XdnaNpu, log_error, xdna_log}
use xdna1_npu_emulator.Mailbox.Send.{xdna_mbox_send}

unfoldable pub mert_reply : ℕ → XdnaMsgHeader → List ℕ → XdnaNpu → XdnaNpu
mert_reply chan hdr payload s = (xdna_mbox_send chan hdr.id hdr.opcode payload s).1

-- The reply size of an opcode, and the offset of the status in the reply.
unfoldable pub resp_size_for : ℕ → ℕ × ℕ
resp_size_for opcode =
    if opcode == msg_op_get_protocol_version
    then (12, 0)
    else if opcode == msg_op_get_firmware_version
    then (20, 0)
    else if opcode == msg_op_query_aie_version
    then (8, 0)
    else if opcode == msg_op_query_aie_tile_info
    then (48, 0)
    else if opcode == msg_op_query_col_status
    then (8, 0)
    else if opcode == msg_op_get_runtime_config
    then (12, 0)
    else if opcode == msg_op_get_telemetry
    then (16, 12)
    else if opcode == msg_op_create_context
    then (76, 0)
    else if opcode == msg_op_register_async_event_msg
    then (8, 0)
    else if opcode == msg_op_get_app_health
    then (36, 0)
    else if opcode == msg_op_get_dev_revision
    then (12, 0)
    else if opcode == msg_op_chain_exec_buffer_cf
        || opcode == msg_op_chain_exec_dpu
        || opcode == msg_op_chain_exec_npu
    then (12, 0)
    else (4, 0)

-- `size` bytes of zeros with the status at its offset.
abbrev pub status_bytes : ℕ × ℕ → ℕ → List ℕ
status_bytes r status =
    let size = r.0 in
    let status_off = r.1 in
    replicate status_off 0 ++ u32_bytes status ++ replicate (size - status_off - 4) 0

-- The local buffer holds 128 bytes.
unfoldable pub mert_reply_status : ℕ → XdnaMsgHeader → ℕ → XdnaNpu → XdnaNpu
mert_reply_status chan hdr status s =
    let r = resp_size_for hdr.opcode in
    if ltb 128 r.0 then xdna_log log_error s else mert_reply chan hdr (status_bytes r status) s
