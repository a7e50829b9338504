-- ===== src/Regs.antt =====
-- include/xdna/xdna_regs.h: the interface constants that the modelled code uses.
-- The opcodes and the status codes of the management firmware are in Regs/Opcodes.antt.
pub mod Opcodes
use xdna1_npu_emulator.Prelude.{ℕ, ◌+◌, ◌-◌, ◌*◌, ◌^◌}

-- Aperture bases, as device addresses.
abbrev pub mpnpu_aperture0_base : ℕ
mpnpu_aperture0_base = 0x3000000

abbrev pub mpnpu_aperture1_base : ℕ
mpnpu_aperture1_base = 0x3080000

abbrev pub mpnpu_aperture2_base : ℕ
mpnpu_aperture2_base = 0x30C0000

-- BAR indices and sizes.
abbrev pub bar_reg : ℕ
bar_reg = 0

abbrev pub bar_sram : ℕ
bar_sram = 2

abbrev pub bar_mbox : ℕ
bar_mbox = 4

abbrev pub bar_reg_size : ℕ
bar_reg_size = 0x80000

abbrev pub bar_sram_size : ℕ
bar_sram_size = 0x40000

abbrev pub bar_mbox_size : ℕ
bar_mbox_size = 0x10000

-- Register offsets in the REG BAR.
abbrev pub reg_pwaitmode : ℕ
reg_pwaitmode = 0x3010034 - mpnpu_aperture0_base

abbrev pub reg_pub_sec_intr : ℕ
reg_pub_sec_intr = 0x3010090 - mpnpu_aperture0_base

abbrev pub reg_pub_pwrmgmt_ir : ℕ
reg_pub_pwrmgmt_ir = 0x3010094 - mpnpu_aperture0_base

abbrev pub reg_scratch2 : ℕ
reg_scratch2 = 0x30100A0 - mpnpu_aperture0_base

abbrev pub reg_scratch3 : ℕ
reg_scratch3 = 0x30100A4 - mpnpu_aperture0_base

abbrev pub reg_scratch4 : ℕ
reg_scratch4 = 0x30100A8 - mpnpu_aperture0_base

abbrev pub reg_scratch5 : ℕ
reg_scratch5 = 0x30100AC - mpnpu_aperture0_base

abbrev pub reg_scratch6 : ℕ
reg_scratch6 = 0x30100B0 - mpnpu_aperture0_base

abbrev pub reg_scratch7 : ℕ
reg_scratch7 = 0x30100B4 - mpnpu_aperture0_base

abbrev pub reg_scratch9 : ℕ
reg_scratch9 = 0x30100BC - mpnpu_aperture0_base

-- PSP protocol.
abbrev pub psp_status_ready : ℕ
psp_status_ready = 2 ^ 31

abbrev pub psp_cmd_validate : ℕ
psp_cmd_validate = 1

abbrev pub psp_cmd_start : ℕ
psp_cmd_start = 2

abbrev pub psp_cmd_release_tmr : ℕ
psp_cmd_release_tmr = 3

abbrev pub psp_cmd_validate_cert : ℕ
psp_cmd_validate_cert = 4

abbrev pub psp_start_copy_fw : ℕ
psp_start_copy_fw = 1

abbrev pub psp_error_cancel : ℕ
psp_error_cancel = 0xFFFF0002

abbrev pub psp_error_bad_state : ℕ
psp_error_bad_state = 0xFFFF0007

abbrev pub psp_arg2_mask : ℕ
psp_arg2_mask = 0x00FFFFFF

abbrev pub psp_notify_val : ℕ
psp_notify_val = 1

-- SMU protocol.
abbrev pub smu_result_ok : ℕ
smu_result_ok = 1

abbrev pub aie_smu_power_on : ℕ
aie_smu_power_on = 0x3

abbrev pub aie_smu_power_off : ℕ
aie_smu_power_off = 0x4

abbrev pub aie_smu_set_mpnpuclk_freq : ℕ
aie_smu_set_mpnpuclk_freq = 0x5

abbrev pub aie_smu_set_hclk_freq : ℕ
aie_smu_set_hclk_freq = 0x6

abbrev pub aie_smu_set_soft_dpmlevel : ℕ
aie_smu_set_soft_dpmlevel = 0x7

abbrev pub aie_smu_set_hard_dpmlevel : ℕ
aie_smu_set_hard_dpmlevel = 0x8

abbrev pub npu1_max_dpm_level : ℕ
npu1_max_dpm_level = 7

-- Layout of the SRAM BAR.
abbrev pub sram_mbox_chann_off : ℕ
sram_mbox_chann_off = 0x30A0000 - mpnpu_aperture1_base

abbrev pub sram_fw_alive_off : ℕ
sram_fw_alive_off = 0x30BF000 - mpnpu_aperture1_base

abbrev pub sram_mgmt_info_off : ℕ
sram_mgmt_info_off = sram_mbox_chann_off

abbrev pub sram_mgmt_x2i_off : ℕ
sram_mgmt_x2i_off = 0x21000

abbrev pub sram_mgmt_i2x_off : ℕ
sram_mgmt_i2x_off = 0x22000

abbrev pub sram_mgmt_rb_size : ℕ
sram_mgmt_rb_size = 0x1000

abbrev pub sram_ctx_rb_base : ℕ
sram_ctx_rb_base = 0x24000

abbrev pub sram_ctx_rb_size : ℕ
sram_ctx_rb_size = 0x2000

abbrev pub sram_ctx_rb_stride : ℕ
sram_ctx_rb_stride = 2 * sram_ctx_rb_size

-- Layout of the MBOX BAR.
abbrev pub mbox_chan_stride : ℕ
mbox_chan_stride = 0x20

abbrev pub mbox_x2i_head_off : ℕ
mbox_x2i_head_off = 0x00

abbrev pub mbox_x2i_tail_off : ℕ
mbox_x2i_tail_off = 0x04

abbrev pub mbox_i2x_head_off : ℕ
mbox_i2x_head_off = 0x08

abbrev pub mbox_intr_off : ℕ
mbox_intr_off = 0x0C

abbrev pub mbox_i2x_tail_off : ℕ
mbox_i2x_tail_off = 0x10

-- Message frame.
-- The upper byte of the id of every message of the driver.
abbrev pub mbox_magic_val : ℕ
mbox_magic_val = 0x1D000000

abbrev pub mbox_tombstone : ℕ
mbox_tombstone = 0xDEADFACE

abbrev pub msg_protocol_ver : ℕ
msg_protocol_ver = 0x1

abbrev pub msg_body_sz_mask : ℕ
msg_body_sz_mask = 0x7FF

abbrev pub msg_proto_ver_shift : ℕ
msg_proto_ver_shift = 16

abbrev pub mgmt_mbox_magic : ℕ
mgmt_mbox_magic = 0x55504E5F

-- Versions, limits and topology.
abbrev pub mgmt_prot_major : ℕ
mgmt_prot_major = 5

abbrev pub mgmt_prot_minor : ℕ
mgmt_prot_minor = 7

abbrev pub fw_ver_major : ℕ
fw_ver_major = 5

abbrev pub fw_ver_minor : ℕ
fw_ver_minor = 7

abbrev pub fw_ver_sub : ℕ
fw_ver_sub = 0

abbrev pub fw_ver_build : ℕ
fw_ver_build = 0

abbrev pub npu1_hwctx_limit : ℕ
npu1_hwctx_limit = 6

abbrev pub aie_cols : ℕ
aie_cols = 5

abbrev pub aie_core_rows : ℕ
aie_core_rows = 4

abbrev pub aie_mem_rows : ℕ
aie_mem_rows = 1

abbrev pub aie_shim_rows : ℕ
aie_shim_rows = 1

abbrev pub aie_rows : ℕ
aie_rows = aie_shim_rows + aie_mem_rows + aie_core_rows

abbrev pub aie_shim_row_start : ℕ
aie_shim_row_start = 0

abbrev pub aie_mem_row_start : ℕ
aie_mem_row_start = 1

abbrev pub aie_core_row_start : ℕ
aie_core_row_start = 2

abbrev pub aie_version_major : ℕ
aie_version_major = 2

abbrev pub aie_version_minor : ℕ
aie_version_minor = 0

-- `XDNA_MBOX_CHAN_BASE`
abbrev pub mbox_chan_base : ℕ → ℕ
mbox_chan_base idx = idx * mbox_chan_stride
