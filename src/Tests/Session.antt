-- ===== src/Tests/Session.antt =====
-- The driver starts the hardware of a new device, asks for the protocol version, and releases it.
use xdna1_npu_emulator.Driver.Session.Restart.{Down, release_restarts}
use xdna1_npu_emulator.Driver.Session.Start.{Up}
use xdna1_npu_emulator.Driver.Boot.{CanRead}
use xdna1_npu_emulator.Driver.Session.Served.{Ask, ask_all, answers, AllRight, session_served}
use xdna1_npu_emulator.Driver.Session.Hand.{Handy}
use xdna1_npu_emulator.Driver.Send.Query.{protocol, firmware}
use xdna1_npu_emulator.Prelude.{◌≡◌, refl, sym, subst, true, false, List, [], ◌∷◌, arith}
use xdna1_npu_emulator.Regs.{psp_status_ready, psp_cmd_release_tmr}
use xdna1_npu_emulator.Regs.Opcodes.{msg_op_get_firmware_version, msg_op_get_protocol_version}
use xdna1_npu_emulator.State.{running, XdnaNpu, xdna_log, store, clear, xdna_sram_write32}
use xdna1_npu_emulator.Mert.{protocol_version, firmware_version}
use xdna1_npu_emulator.Mert.Wire.{protocol_version_bytes, firmware_version_bytes}
use xdna1_npu_emulator.Psp.{psp_peek_bytes, read_image}
use xdna1_npu_emulator.Device.{npu_zero, xdna_npu_reset, xdna_npu_new}
use xdna1_npu_emulator.Firmware.{open_mgmt, publish_info, xdna_fw_boot}
use xdna1_npu_emulator.Mailbox.Channel.{xdna_mbox_channel_reset, reset_from, xdna_mbox_reset}
use xdna1_npu_emulator.Invariant.{Safe}
use xdna1_npu_emulator.Invariant.Reach.{reset-Safe}
use xdna1_npu_emulator.Invariant.Power.{fw_boot-Safe}
use xdna1_npu_emulator.Driver.Host.{host_ops}
use xdna1_npu_emulator.Driver.Session.{fw_paddr, new_drv, drv_hw_start}
use xdna1_npu_emulator.Tests.States.{four_bytes}
use xdna1_npu_emulator.Driver.{psp_exec}
use xdna1_npu_emulator.Driver.Receive.{Drv}
use xdna1_npu_emulator.Driver.Attach.{drv_get_mgmt_chann_info}

-- A new device with the host of the test, and one whose firmware runs.
abbrev test_npu : XdnaNpu
test_npu = xdna_npu_new host_ops

abbrev running_npu : XdnaNpu
running_npu = xdna_fw_boot (record test_npu { psp_state = running })

test_npu-Safe : Safe test_npu
unfolding xdna_npu_new
test_npu-Safe = reset-Safe (npu_zero host_ops []) refl

test_npu-status : test_npu.scratch 2 ≡ psp_status_ready
unfolding xdna_npu_new xdna_npu_reset xdna_mbox_reset reset_from xdna_mbox_channel_reset
test_npu-status = refl

test_npu-ops : test_npu.ops ≡ host_ops
unfolding xdna_npu_new xdna_npu_reset xdna_mbox_reset reset_from xdna_mbox_channel_reset
test_npu-ops = refl

running_npu-status : running_npu.scratch 2 ≡ psp_status_ready
unfolding xdna_fw_boot publish_info open_mgmt xdna_sram_write32 store clear xdna_mbox_channel_reset
    xdna_log xdna_npu_new xdna_npu_reset xdna_mbox_reset reset_from
running_npu-status = refl

running_npu-ops : running_npu.ops ≡ host_ops
unfolding xdna_fw_boot publish_info open_mgmt xdna_sram_write32 store clear xdna_mbox_channel_reset
    xdna_log xdna_npu_new xdna_npu_reset xdna_mbox_reset reset_from
running_npu-ops = refl

-- The host of the test lets the PSP read the start of the image.
host_ops-CanRead : CanRead host_ops fw_paddr psp_peek_bytes
unfolding read_image
host_ops-CanRead u e = rw e refl

-- Two versions are asked for.
abbrev asks : List Ask
asks =
    record {
      op = msg_op_get_protocol_version;
      req = four_bytes;
      reply = protocol_version_bytes protocol_version;
    }
    ∷ record {
      op = msg_op_get_firmware_version;
      req = four_bytes;
      reply = firmware_version_bytes firmware_version;
    }
    ∷ []

four_bytes-Handy : Handy four_bytes
four_bytes-Handy = record { some_bytes = omega arith; aligned = refl; half = omega arith }

asks-AllRight : (s : XdnaNpu) → AllRight asks s
asks-AllRight s = (four_bytes-Handy, protocol refl refl, (four_bytes-Handy, firmware refl refl, tt))

session_served_example :
    let r = drv_hw_start new_drv test_npu in
    (r.0 ≡ true) × ((ask_all asks r.1 r.2).0 ≡ answers asks 1)
session_served_example =
    session_served test_npu asks test_npu-status
      (subst (λ o. CanRead o fw_paddr psp_peek_bytes) (sym test_npu-ops) host_ops-CanRead)
      test_npu-Safe (asks-AllRight (drv_hw_start new_drv test_npu).2)

release_restarts_example :
    let a = psp_exec psp_cmd_release_tmr 0 0 0 running_npu in
    let b = drv_hw_start new_drv a.1 in
    (a.0 ≡ true)
    × Down a.1
    × ((d : Drv) → drv_get_mgmt_chann_info d a.1 ≡ (false, d, a.1))
    × (b.0 ≡ true)
    × Up b.1 b.2
release_restarts_example =
    release_restarts running_npu running_npu-status (fw_boot-Safe test_npu test_npu-Safe)
      (subst (λ o. CanRead o fw_paddr psp_peek_bytes) (sym running_npu-ops) host_ops-CanRead)
