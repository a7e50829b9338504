-- ===== src/Mert.antt =====
-- src/xdna_mert.c, `xdna_mert_handle`: the message dispatcher of the management firmware.
pub mod Wire
pub mod Reply
pub mod Context
pub mod Dump
pub mod Slots
pub mod Kept
pub mod Sizes
pub mod Answer
pub mod Table
pub mod Lifecycle
pub mod Lifetime
pub mod Config
use xdna1_npu_emulator.Prelude.{
  ℕ, Bool, true, false, not, ◌||◌, List, ltb, leb, ◌==◌, if◌then◌else◌, u16_at, u32_at,
}
use xdna1_npu_emulator.Regs.{
  mgmt_prot_major, mgmt_prot_minor, fw_ver_major, fw_ver_minor, fw_ver_sub, fw_ver_build, aie_cols,
  aie_core_rows, aie_mem_rows, aie_shim_rows, aie_rows, aie_shim_row_start, aie_mem_row_start,
  aie_core_row_start, aie_version_major, aie_version_minor,
}
use xdna1_npu_emulator.Regs.Opcodes.{
  msg_op_create_context, msg_op_destroy_context, msg_op_get_telemetry, msg_op_sync_bo,
  msg_op_execute_buffer_cf, msg_op_query_col_status, msg_op_query_aie_tile_info,
  msg_op_query_aie_version, msg_op_exec_dpu, msg_op_config_cu, msg_op_chain_exec_buffer_cf,
  msg_op_chain_exec_dpu, msg_op_config_debug_bo, msg_op_chain_exec_npu, msg_op_suspend,
  msg_op_resume, msg_op_assign_mgmt_pasid, msg_op_invoke_self_test, msg_op_map_host_buffer,
  msg_op_get_firmware_version, msg_op_set_runtime_config, msg_op_get_runtime_config,
  msg_op_register_async_event_msg, msg_op_add_host_buffer, msg_op_get_protocol_version,
  aie2_status_success, aie2_status_invalid_input_buffer, aie2_status_invalid_command,
  aie2_status_invalid_param, aie2_status_invalid_operation,
}
use xdna1_npu_emulator.State.{
  XdnaMsgHeader, XdnaNpu, update, log_error, log_warn, log_info, log_debug, xdna_log,
}
use xdna1_npu_emulator.Mert.Wire.{
  ProtocolVersionResp, FirmwareVersionResp, AieVersionResp, AieTileInfo, GetRuntimeCfgResp,
  TelemetryResp, protocol_version_bytes, firmware_version_bytes, aie_version_bytes,
  tile_info_resp_bytes, runtime_cfg_bytes, telemetry_bytes, set_runtime_cfg_req, async_event_req,
}
use xdna1_npu_emulator.Mert.Reply.{mert_reply, mert_reply_status}
use xdna1_npu_emulator.Mert.Context.{
  handle_create_context, handle_destroy_context, handle_map_host_buffer,
}
use xdna1_npu_emulator.Mert.Dump.{handle_query_col_status}

abbrev pub rt_cfg_count : ℕ
rt_cfg_count = 64

abbrev pub col_status_size : ℕ
col_status_size = 0x2000

abbrev pub tile_info : AieTileInfo
tile_info = record {
  size = col_status_size;
  major = aie_version_major;
  minor = aie_version_minor;
  cols = aie_cols;
  rows = aie_rows;
  core_rows = aie_core_rows;
  mem_rows = aie_mem_rows;
  shim_rows = aie_shim_rows;
  core_row_start = aie_core_row_start;
  mem_row_start = aie_mem_row_start;
  shim_row_start = aie_shim_row_start;
  core_dma_channels = 2;
  mem_dma_channels = 6;
  shim_dma_channels = 2;
  core_locks = 16;
  mem_locks = 64;
  shim_locks = 16;
  core_events = 128;
  mem_events = 128;
  shim_events = 128;
  reserved = 0;
}

abbrev pub protocol_version : ProtocolVersionResp
protocol_version = record {
  status = aie2_status_success;
  major = mgmt_prot_major;
  minor = mgmt_prot_minor;
}

abbrev pub firmware_version : FirmwareVersionResp
firmware_version = record {
  status = aie2_status_success;
  major = fw_ver_major;
  minor = fw_ver_minor;
  sub = fw_ver_sub;
  build = fw_ver_build;
}

abbrev pub aie_version : AieVersionResp
aie_version = record {
  status = aie2_status_success;
  major = aie_version_major;
  minor = aie_version_minor;
}

abbrev pub telemetry : TelemetryResp
telemetry = record { major = 1; minor = 0; size = 0; status = aie2_status_success }

unfoldable pub handle_set_runtime_config : ℕ → XdnaMsgHeader → List ℕ → XdnaNpu → XdnaNpu
handle_set_runtime_config chan hdr payload s =
    let req = set_runtime_cfg_req payload in
    if ltb hdr.total_size 12
    then mert_reply_status chan hdr aie2_status_invalid_input_buffer s
    else if leb rt_cfg_count req.type
    then mert_reply_status chan hdr aie2_status_invalid_param (xdna_log log_warn s)
    else mert_reply_status chan hdr aie2_status_success
        (xdna_log log_debug (record s { rt_cfg = update s.rt_cfg req.type req.value }))

-- The response to a read of an entry; the value is 0 where there is none.
abbrev pub runtime_config : ℕ → XdnaNpu → GetRuntimeCfgResp
runtime_config type s =
    if leb rt_cfg_count type
    then record { status = aie2_status_invalid_param; value = 0 }
    else record { status = aie2_status_success; value = s.rt_cfg type }

unfoldable pub handle_get_runtime_config : ℕ → XdnaMsgHeader → List ℕ → XdnaNpu → XdnaNpu
handle_get_runtime_config chan hdr payload s =
    if ltb hdr.total_size 4
    then mert_reply_status chan hdr aie2_status_invalid_input_buffer s
    else mert_reply chan hdr (runtime_cfg_bytes (runtime_config (u32_at payload 0) s)) s

unfoldable pub handle_assign_mgmt_pasid : ℕ → XdnaMsgHeader → List ℕ → XdnaNpu → XdnaNpu
handle_assign_mgmt_pasid chan hdr payload s =
    if ltb hdr.total_size 4
    then mert_reply_status chan hdr aie2_status_invalid_input_buffer s
    else mert_reply_status chan hdr aie2_status_success
        (xdna_log log_info (record s { mgmt_pasid = u16_at payload 0 }))

-- The registration is answered later, when an event occurs: here only a bad request is.
unfoldable pub handle_register_async_event : ℕ → XdnaMsgHeader → List ℕ → XdnaNpu → XdnaNpu
handle_register_async_event chan hdr payload s =
    let req = async_event_req payload in
    if ltb hdr.total_size 12
    then mert_reply_status chan hdr aie2_status_invalid_input_buffer s
    else xdna_log log_debug (record s {
      async_buf_addr = req.buf_addr;
      async_buf_size = req.buf_size;
      async_registered = true;
    })

-- The opcodes that need the array to run code.
abbrev pub needs_array : ℕ → Bool
needs_array op =
    op == msg_op_config_cu
    || op == msg_op_execute_buffer_cf
    || op == msg_op_exec_dpu
    || op == msg_op_chain_exec_buffer_cf
    || op == msg_op_chain_exec_dpu
    || op == msg_op_chain_exec_npu
    || op == msg_op_sync_bo
    || op == msg_op_config_debug_bo

-- The `switch` of `xdna_mert_handle`.
unfoldable pub dispatch : ℕ → XdnaMsgHeader → List ℕ → XdnaNpu → XdnaNpu
dispatch chan hdr payload s =
    let op = hdr.opcode in
    if op == msg_op_get_protocol_version
    then mert_reply chan hdr (protocol_version_bytes protocol_version) s
    else if op == msg_op_get_firmware_version
    then mert_reply chan hdr (firmware_version_bytes firmware_version) s
    else if op == msg_op_query_aie_version
    then mert_reply chan hdr (aie_version_bytes aie_version) s
    else if op == msg_op_query_aie_tile_info
    then mert_reply chan hdr
        (tile_info_resp_bytes (record { status = aie2_status_success; info = tile_info })) s
    else if op == msg_op_set_runtime_config
    then handle_set_runtime_config chan hdr payload s
    else if op == msg_op_get_runtime_config
    then handle_get_runtime_config chan hdr payload s
    else if op == msg_op_assign_mgmt_pasid
    then handle_assign_mgmt_pasid chan hdr payload s
    else if op == msg_op_suspend
    then mert_reply_status chan hdr aie2_status_success (record s { fw_suspended = true })
    else if op == msg_op_resume
    then mert_reply_status chan hdr aie2_status_success (record s { fw_suspended = false })
    else if op == msg_op_invoke_self_test
    then mert_reply_status chan hdr aie2_status_success s
    else if op == msg_op_create_context
    then handle_create_context chan hdr payload s
    else if op == msg_op_destroy_context
    then handle_destroy_context chan hdr payload s
    else if op == msg_op_map_host_buffer || op == msg_op_add_host_buffer
    then handle_map_host_buffer chan hdr payload s
    else if op == msg_op_register_async_event_msg
    then handle_register_async_event chan hdr payload s
    else if op == msg_op_query_col_status
    then handle_query_col_status chan hdr payload s
    else if op == msg_op_get_telemetry
    then mert_reply chan hdr (telemetry_bytes telemetry) s
    else if needs_array op
    then mert_reply_status chan hdr aie2_status_invalid_operation (xdna_log log_warn s)
    else mert_reply_status chan hdr aie2_status_invalid_command (xdna_log log_warn s)

unfoldable pub xdna_mert_handle : ℕ → XdnaMsgHeader → List ℕ → XdnaNpu → XdnaNpu
xdna_mert_handle chan hdr payload s =
    if not s.fw_alive then xdna_log log_error s else dispatch chan hdr payload s
