-- ===== src/Tests/Driver.antt =====
-- Results on the driver's handshakes, at concrete commands.
use xdna1_npu_emulator.Prelude.{◌≡◌, refl, ◌≢◌, true, false, arith, ◌==◌, if◌then◌else◌}
use xdna1_npu_emulator.Regs.{
  psp_status_ready, psp_cmd_validate, psp_cmd_start, psp_start_copy_fw, aie_smu_set_hard_dpmlevel,
}
use xdna1_npu_emulator.State.{running, XdnaNpu}
use xdna1_npu_emulator.Mailbox.Channel.{xdna_mbox_channel_reset, reset_from, xdna_mbox_reset}
use xdna1_npu_emulator.Psp.{psp_peek_bytes, read_image, xdna_psp_kick}
use xdna1_npu_emulator.Smu.{xdna_smu_kick}
use xdna1_npu_emulator.Device.{xdna_npu_reset, xdna_npu_new}
use xdna1_npu_emulator.Driver.Host.{host_ops}
use xdna1_npu_emulator.Driver.Session.{fw_paddr}
use xdna1_npu_emulator.Firmware.Boot.{Published}
use xdna1_npu_emulator.Tests.States.{fresh}
use xdna1_npu_emulator.Driver.{is_ready, psp_exec, smu_exec}
use xdna1_npu_emulator.Driver.Registers.{psp_loaded}
use xdna1_npu_emulator.Driver.Handshake.{PspWords, psp_exec_outcome}
use xdna1_npu_emulator.Driver.Boot.{CanRead, driver_boots}
use xdna1_npu_emulator.Driver.Power.{smu_loaded, smu_exec_kicks}
use xdna1_npu_emulator.Smu.Settings.{is_accepted}

fresh-ready : fresh.scratch 2 ≡ psp_status_ready
unfolding xdna_npu_new xdna_npu_reset xdna_mbox_reset reset_from xdna_mbox_channel_reset
fresh-ready = refl

-- A new device with the host of the test.
abbrev test_npu : XdnaNpu
test_npu = xdna_npu_new host_ops

test_npu-status : test_npu.scratch 2 ≡ psp_status_ready
unfolding xdna_npu_new xdna_npu_reset xdna_mbox_reset reset_from xdna_mbox_channel_reset
test_npu-status = refl

test_npu-ops : test_npu.ops ≡ host_ops
unfolding xdna_npu_new xdna_npu_reset xdna_mbox_reset reset_from xdna_mbox_channel_reset
test_npu-ops = refl

-- An image of 0x1000 bytes at 0x100000000.
validate-PspWords : PspWords psp_cmd_validate 0 1 0x1000
validate-PspWords = record {
  cmd_word = omega arith;
  arg0_word = omega arith;
  arg1_word = omega arith;
  arg2_word = omega arith;
}

psp_exec_outcome_example :
    let t = xdna_psp_kick (psp_loaded psp_cmd_validate 0 1 0x1000 fresh) in
    psp_exec psp_cmd_validate 0 1 0x1000 fresh
    ≡ (if is_ready (fresh.scratch 2) then (t.scratch 3 == 0, t) else (false, fresh))
psp_exec_outcome_example =
    psp_exec_outcome psp_cmd_validate 0 1 0x1000 fresh validate-PspWords
      (omega (arith, fresh-ready))

-- The image of the test, whose start its host lets the PSP read.
image-PspWords : PspWords psp_cmd_validate 0x10000 1 0x40000
image-PspWords = record {
  cmd_word = omega arith;
  arg0_word = omega arith;
  arg1_word = omega arith;
  arg2_word = omega arith;
}

image-CanRead : CanRead test_npu.ops fw_paddr psp_peek_bytes
unfolding read_image
image-CanRead u e = rw (e, test_npu-ops) refl

driver_boots_example :
    let a = psp_exec psp_cmd_validate 0x10000 1 0x40000 test_npu in
    let b = psp_exec psp_cmd_start psp_start_copy_fw 0 0 a.1 in
    (a.0 ≡ true) × (b.0 ≡ true) × (b.1.fw_alive ≡ true) × (b.1.psp_state ≡ running) × Published b.1
driver_boots_example =
    driver_boots 0x10000 1 0x40000 test_npu test_npu-status image-PspWords
      (λ e. absurd (omega (arith, e))) image-CanRead

smu_exec_kicks_example :
    let t = xdna_smu_kick (smu_loaded aie_smu_set_hard_dpmlevel 9 fresh) in
    let r = smu_exec aie_smu_set_hard_dpmlevel 9 fresh in
    (t.scratch 6 ≢ 0) × (r ≡ (is_accepted aie_smu_set_hard_dpmlevel 9, t.scratch 7, t))
smu_exec_kicks_example =
    smu_exec_kicks aie_smu_set_hard_dpmlevel 9 fresh (omega arith) (omega arith)
