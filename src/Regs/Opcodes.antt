-- ===== src/Regs/Opcodes.antt =====
-- include/xdna/xdna_regs.h: `enum xdna_msg_opcode` and `enum xdna_msg_status`, those that the
-- firmware model names.
use xdna1_npu_emulator.Prelude.{ℕ}

abbrev pub msg_op_create_context : ℕ
msg_op_create_context = 2

abbrev pub msg_op_destroy_context : ℕ
msg_op_destroy_context = 3

abbrev pub msg_op_get_telemetry : ℕ
msg_op_get_telemetry = 4

abbrev pub msg_op_sync_bo : ℕ
msg_op_sync_bo = 7

abbrev pub msg_op_execute_buffer_cf : ℕ
msg_op_execute_buffer_cf = 0xC

abbrev pub msg_op_query_col_status : ℕ
msg_op_query_col_status = 0xD

abbrev pub msg_op_query_aie_tile_info : ℕ
msg_op_query_aie_tile_info = 0xE

abbrev pub msg_op_query_aie_version : ℕ
msg_op_query_aie_version = 0xF

abbrev pub msg_op_exec_dpu : ℕ
msg_op_exec_dpu = 0x10

abbrev pub msg_op_config_cu : ℕ
msg_op_config_cu = 0x11

abbrev pub msg_op_chain_exec_buffer_cf : ℕ
msg_op_chain_exec_buffer_cf = 0x12

abbrev pub msg_op_chain_exec_dpu : ℕ
msg_op_chain_exec_dpu = 0x13

abbrev pub msg_op_config_debug_bo : ℕ
msg_op_config_debug_bo = 0x14

abbrev pub msg_op_chain_exec_npu : ℕ
msg_op_chain_exec_npu = 0x18

abbrev pub msg_op_suspend : ℕ
msg_op_suspend = 0x101

abbrev pub msg_op_resume : ℕ
msg_op_resume = 0x102

abbrev pub msg_op_assign_mgmt_pasid : ℕ
msg_op_assign_mgmt_pasid = 0x103

abbrev pub msg_op_invoke_self_test : ℕ
msg_op_invoke_self_test = 0x104

abbrev pub msg_op_map_host_buffer : ℕ
msg_op_map_host_buffer = 0x106

abbrev pub msg_op_get_firmware_version : ℕ
msg_op_get_firmware_version = 0x108

abbrev pub msg_op_set_runtime_config : ℕ
msg_op_set_runtime_config = 0x10A

abbrev pub msg_op_get_runtime_config : ℕ
msg_op_get_runtime_config = 0x10B

abbrev pub msg_op_register_async_event_msg : ℕ
msg_op_register_async_event_msg = 0x10C

abbrev pub msg_op_get_app_health : ℕ
msg_op_get_app_health = 0x114

abbrev pub msg_op_add_host_buffer : ℕ
msg_op_add_host_buffer = 0x115

abbrev pub msg_op_get_dev_revision : ℕ
msg_op_get_dev_revision = 0x117

abbrev pub msg_op_get_protocol_version : ℕ
msg_op_get_protocol_version = 0x301

abbrev pub aie2_status_success : ℕ
aie2_status_success = 0x0

abbrev pub aie2_status_aie_dma_error : ℕ
aie2_status_aie_dma_error = 0x1000009

abbrev pub aie2_status_mgmt_ert_noavail : ℕ
aie2_status_mgmt_ert_noavail = 0x2000003

abbrev pub aie2_status_mgmt_ert_invalid_param : ℕ
aie2_status_mgmt_ert_invalid_param = 0x2000004

abbrev pub aie2_status_invalid_input_buffer : ℕ
aie2_status_invalid_input_buffer = 0x4000001

abbrev pub aie2_status_invalid_command : ℕ
aie2_status_invalid_command = 0x4000002

abbrev pub aie2_status_invalid_param : ℕ
aie2_status_invalid_param = 0x4000003

abbrev pub aie2_status_invalid_operation : ℕ
aie2_status_invalid_operation = 0x4000006
