-- ===== src/Driver.antt =====
-- tests/test_boot.c, the driver model: the handshakes with the PSP and the SMU, as the Linux driver
-- makes them through the REG BAR. A handshake that times out or is refused gives `false`.
pub mod Registers
pub mod Handshake
pub mod Boot
pub mod Power
pub mod Receive
pub mod Send
pub mod Attach
pub mod Host
pub mod Session
use xdna1_npu_emulator.Prelude.{
  ℕ, ◌*◌, ◌%◌, ◌^◌, bit_and, bit_or, Bool, false, not, ◌==◌, if◌then◌else◌,
}
use xdna1_npu_emulator.Regs.{
  bar_reg, reg_pub_sec_intr, reg_pub_pwrmgmt_ir, reg_scratch2, reg_scratch3, reg_scratch4,
  reg_scratch5, reg_scratch6, reg_scratch7, reg_scratch9, psp_status_ready, psp_arg2_mask,
  psp_notify_val, smu_result_ok,
}
use xdna1_npu_emulator.State.{XdnaNpu}
use xdna1_npu_emulator.Device.{xdna_npu_mmio_read, xdna_npu_mmio_write}

-- `PSP_ARG2_CMD_SHIFT`
abbrev pub psp_arg2_cmd_shift : ℕ
psp_arg2_cmd_shift = 24

unfoldable pub rd32 : ℕ → ℕ → XdnaNpu → ℕ × XdnaNpu
rd32 bar off s = xdna_npu_mmio_read bar off 4 s

unfoldable pub wr32 : ℕ → ℕ → ℕ → XdnaNpu → XdnaNpu
wr32 bar off val s = xdna_npu_mmio_write bar off val 4 s

abbrev pub is_ready : ℕ → Bool
is_ready status = not (bit_and status psp_status_ready == 0)

-- The third argument, with the command in its upper byte, masked.
abbrev pub psp_arg2 : ℕ → ℕ → ℕ
psp_arg2 cmd arg2 = bit_and (bit_or arg2 ((cmd * 2 ^ psp_arg2_cmd_shift) % 2 ^ 32)) psp_arg2_mask

-- The writes of a PSP command: the registers, and the kick.
unfoldable pub psp_set_cmd : ℕ → ℕ → ℕ → ℕ → XdnaNpu → XdnaNpu
psp_set_cmd cmd arg0 arg1 arg2 s =
    let s1 = wr32 bar_reg reg_scratch2 cmd s in
    let s2 = wr32 bar_reg reg_scratch3 arg0 s1 in
    let s3 = wr32 bar_reg reg_scratch4 arg1 s2 in
    let s4 = wr32 bar_reg reg_scratch9 (psp_arg2 cmd arg2) s3 in
    wr32 bar_reg reg_pub_sec_intr psp_notify_val (wr32 bar_reg reg_pub_sec_intr 0 s4)

-- The status and the response after the kick.
unfoldable pub psp_result : XdnaNpu → Bool × XdnaNpu
psp_result s =
    let status = rd32 bar_reg reg_scratch2 s in
    let resp = rd32 bar_reg reg_scratch3 status.1 in
    if not (is_ready status.0) then (false, status.1) else (resp.0 == 0, resp.1)

-- `true` stands for the return value 0, `false` for -1.
unfoldable pub psp_exec : ℕ → ℕ → ℕ → ℕ → XdnaNpu → Bool × XdnaNpu
psp_exec cmd arg0 arg1 arg2 s =
    let status = rd32 bar_reg reg_scratch2 s in
    if not (is_ready status.0)
    then (false, status.1)
    else psp_result (psp_set_cmd cmd arg0 arg1 arg2 status.1)

unfoldable pub smu_set_cmd : ℕ → ℕ → XdnaNpu → XdnaNpu
smu_set_cmd cmd arg s =
    let s1 = wr32 bar_reg reg_scratch6 0 s in
    let s2 = wr32 bar_reg reg_scratch7 arg s1 in
    let s3 = wr32 bar_reg reg_scratch5 cmd s2 in
    wr32 bar_reg reg_pub_pwrmgmt_ir 1 (wr32 bar_reg reg_pub_pwrmgmt_ir 0 s3)

-- The result, the value of the OUT register, and the device.
unfoldable pub smu_exec : ℕ → ℕ → XdnaNpu → Bool × ℕ × XdnaNpu
smu_exec cmd arg s =
    let resp = rd32 bar_reg reg_scratch6 (smu_set_cmd cmd arg s) in
    let out = rd32 bar_reg reg_scratch7 resp.1 in
    if resp.0 == 0 then (false, 0, resp.1) else (resp.0 == smu_result_ok, out.0, out.1)
