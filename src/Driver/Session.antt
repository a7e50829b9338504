-- ===== src/Driver/Session.antt =====
-- tests/test_boot.c, `drv_hw_start`: the driver powers the device up, loads and starts the firmware
-- and finds the management channel.
pub mod Start
pub mod Hand
pub mod Replies
pub mod Create
pub mod Rounds
pub mod Served
pub mod Restart
use xdna1_npu_emulator.Prelude.{ℕ, ◌+◌, ◌/◌, ◌%◌, ◌^◌, Bool, false, not, if◌then◌else◌}
use xdna1_npu_emulator.Driver.Host.{host_mem_base}
use xdna1_npu_emulator.Driver.{psp_exec, smu_exec}
use xdna1_npu_emulator.Driver.Receive.{ChannRes, Drv}
use xdna1_npu_emulator.Driver.Attach.{drv_get_mgmt_chann_info}
use xdna1_npu_emulator.Regs.{
  psp_cmd_validate, psp_cmd_start, psp_start_copy_fw, aie_smu_power_on, aie_smu_power_off,
}
use xdna1_npu_emulator.State.{XdnaNpu}

-- `FW_PADDR` and `FW_SIZE`
abbrev pub fw_paddr : ℕ
fw_paddr = host_mem_base + 0x10000

abbrev pub fw_size : ℕ
fw_size = 0x40000

abbrev pub no_ring : ChannRes
no_ring = record { rb_start = 0; rb_size = 0; head_reg = 0; tail_reg = 0 }

-- The driver that the test starts with.
abbrev pub new_drv : Drv
new_drv = record {
  x2i = no_ring;
  i2x = no_ring;
  intr_reg = 0;
  msix_id = 0;
  prot_major = 0;
  prot_minor = 0;
  x2i_tail = 0;
  i2x_head = 0;
  next_id = 1;
}

-- The part that loads the firmware, and the search for the channel.
unfoldable pub drv_fw_start : Drv → XdnaNpu → Bool × Drv × XdnaNpu
drv_fw_start d s =
    let valid =
      psp_exec psp_cmd_validate (fw_paddr % 2 ^ 32) (fw_paddr / 2 ^ 32 % 2 ^ 32) fw_size s in
    let start = psp_exec psp_cmd_start psp_start_copy_fw 0 0 valid.1 in
    if not valid.0
    then (false, d, valid.1)
    else if not start.0
    then (false, d, start.1)
    else drv_get_mgmt_chann_info d start.1

-- `true` stands for the return value 0, `false` for -1.
unfoldable pub drv_hw_start : Drv → XdnaNpu → Bool × Drv × XdnaNpu
drv_hw_start d s =
    let off = smu_exec aie_smu_power_off 0 s in
    let on = smu_exec aie_smu_power_on 0 off.2 in
    if not off.0
    then (false, d, off.2)
    else if not on.0
    then (false, d, on.2)
    else drv_fw_start d on.2
