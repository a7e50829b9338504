-- ===== src/Tests/States.antt =====
-- States of the device that the examples start from.
use xdna1_npu_emulator.Prelude.{ℕ, ◌≡◌, refl, true, List, [], ◌∷◌, arith}
use xdna1_npu_emulator.State.{running, XdnaNpu, xdna_log, store, clear, xdna_sram_write32}
use xdna1_npu_emulator.Mailbox.Channel.{
  channel_zero, xdna_mbox_channel_reset, reset_from, xdna_mbox_reset,
}
use xdna1_npu_emulator.Mailbox.Send.{
  put_tombstone, put_message, set_tail, notify, deliver, xdna_mbox_send,
}
use xdna1_npu_emulator.Firmware.{open_mgmt, publish_info, xdna_fw_boot}
use xdna1_npu_emulator.Device.{npu_zero, xdna_npu_reset, xdna_npu_new}
use xdna1_npu_emulator.Invariant.{Safe}
use xdna1_npu_emulator.Invariant.Power.{fw_boot-Safe}
use xdna1_npu_emulator.Invariant.Reach.{reset-Safe}
use xdna1_npu_emulator.Tests.Boot.{willing_host}
use xdna1_npu_emulator.Invariant.SendSafe.{set_tail-Safe, send-Safe}
use xdna1_npu_emulator.Firmware.Boot.{mgmt_channel, boot_chan, boot_publishes}

-- A new device, and one whose firmware has just been started.
abbrev pub fresh : XdnaNpu
fresh = xdna_npu_new willing_host

abbrev pub ready : XdnaNpu
ready = xdna_fw_boot (record fresh { psp_state = running })

pub fresh-Safe : Safe fresh
unfolding xdna_npu_new
fresh-Safe = reset-Safe (npu_zero willing_host []) refl

pub ready-Safe : Safe ready
ready-Safe = fw_boot-Safe fresh fresh-Safe

pub ready-chan : ready.chan 0 ≡ mgmt_channel
ready-chan = boot_chan (record fresh { psp_state = running })

pub ready-active : (ready.chan 0).active ≡ true
ready-active = (boot_publishes (record fresh { psp_state = running })).active

abbrev pub four_bytes : List ℕ
four_bytes = 1 ∷ 2 ∷ 3 ∷ 4 ∷ []

-- After a first message to the driver, which it has not read.
abbrev pub sent_once : XdnaNpu
sent_once = (xdna_mbox_send 0 7 0x301 four_bytes ready).1

pub sent_once-Safe : Safe sent_once
sent_once-Safe = send-Safe 0 7 0x301 four_bytes ready (omega arith) ready-Safe

pub sent_once-chan : sent_once.chan 0 ≡ record channel_zero {
  active = true;
  i2x_tail = 20;
  intr = 1;
  x2i_buf = 0x21000;
  x2i_size = 0x1000;
  i2x_buf = 0x22000;
  i2x_size = 0x1000;
}
unfolding xdna_mbox_send deliver notify put_message put_tombstone store xdna_fw_boot publish_info
    open_mgmt xdna_sram_write32 clear xdna_mbox_channel_reset xdna_log xdna_npu_new xdna_npu_reset
    xdna_mbox_reset reset_from
sent_once-chan = refl

-- The outgoing ring is filled up to its last word.
abbrev pub filled : XdnaNpu
filled = set_tail 0 4092 ready

pub filled-Safe : Safe filled
filled-Safe = set_tail-Safe 0 4092 ready (λ _. rw ready-chan (omega arith, omega arith)) ready-Safe
