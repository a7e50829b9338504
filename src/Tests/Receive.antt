-- ===== src/Tests/Receive.antt =====
-- The driver receives from the management channel, at a concrete message.
use xdna1_npu_emulator.Prelude.{◌≡◌, refl, ap, arith}
use xdna1_npu_emulator.State.{XdnaChannel, XdnaNpu, update}
use xdna1_npu_emulator.Driver.Receive.{Drv, mbox_recv}
use xdna1_npu_emulator.Driver.Receive.Accepted.{accepted-IsTaken}
use xdna1_npu_emulator.Driver.Receive.Taken.{IsTaken}
use xdna1_npu_emulator.Mailbox.Send.{message_header, set_tail, xdna_mbox_send}
use xdna1_npu_emulator.Invariant.{Safe}
use xdna1_npu_emulator.Invariant.Access.{regs-Safe}
use xdna1_npu_emulator.Invariant.SendSafe.{set_tail-Safe}
use xdna1_npu_emulator.Firmware.Boot.{mgmt_channel}
use xdna1_npu_emulator.Tests.States.{ready, ready-Safe, ready-chan, four_bytes}
use xdna1_npu_emulator.Driver.Receive.Access.{Attached}
use xdna1_npu_emulator.Driver.Send.Feed.{Feeds}
use xdna1_npu_emulator.Mailbox.Incoming.{Words}

-- A driver that has read nothing yet.
abbrev pub driver : Drv
driver = record {
  x2i = record { rb_start = 0x21000; rb_size = 0x1000; head_reg = 0; tail_reg = 4 };
  i2x = record { rb_start = 0x22000; rb_size = 0x1000; head_reg = 8; tail_reg = 0x10 };
  intr_reg = 0xC;
  msix_id = 0;
  prot_major = 1;
  prot_minor = 1;
  x2i_tail = 0;
  i2x_head = 0;
  next_id = 0;
}

-- It knows both rings of the management channel.
pub driver-Attached : Attached 0 (ready.chan 0) driver
driver-Attached = rw ready-chan (record {
  rb_start = refl;
  rb_size = refl;
  head_reg = refl;
  tail_reg = refl;
  intr_reg = refl;
  position = refl;
})

pub driver-Feeds : Feeds 0 (ready.chan 0) driver
driver-Feeds =
    rw ready-chan (record {
      rb_start = refl;
      rb_size = refl;
      head_reg = refl;
      tail_reg = refl;
      position = refl;
    })

four-Words : Words (message_header 4 7 0x301)
four-Words = record {
  total_size = omega arith;
  sz_ver = omega arith;
  id = omega arith;
  opcode = omega arith;
}

-- Both positions of the outgoing ring are close to its end.
abbrev near_end : XdnaNpu
near_end =
    let s = set_tail 0 4080 ready in
    record s { chan = update s.chan 0 (record (s.chan 0) { i2x_head = 4080; intr = 0 }) }

near_end-Safe : Safe near_end
near_end-Safe =
    let v : Safe (set_tail 0 4080 ready) =
      set_tail-Safe 0 4080 ready (λ _. rw ready-chan (omega arith, omega arith)) ready-Safe in
    regs-Safe 0 (ready.chan 0).x2i_tail 4080 0 (set_tail 0 4080 ready) (λ _ _. omega arith) v

near_end-chan : near_end.chan 0 ≡ record mgmt_channel { i2x_head = 4080; i2x_tail = 4080; intr = 0 }
near_end-chan = λ k. record (ready-chan k) { i2x_head = 4080; i2x_tail = 4080; intr = 0 }

abbrev late_driver : Drv
late_driver = record driver { i2x_head = 4080 }

accepted-IsTaken_example :
    let t = (xdna_mbox_send 0 7 0x301 four_bytes near_end).1 in
    IsTaken 0 (message_header 4 7 0x301) four_bytes late_driver t (mbox_recv 4 late_driver t)
accepted-IsTaken_example =
    accepted-IsTaken 0 7 0x301 four_bytes near_end late_driver (omega arith)
      (ap (λ (c : XdnaChannel). c.active) near_end-chan) near_end-Safe
      (rw near_end-chan (record {
        rb_start = refl;
        rb_size = refl;
        head_reg = refl;
        tail_reg = refl;
        intr_reg = refl;
        position = refl;
      }))
      refl (omega arith) (rw ready-chan refl) (omega arith) four-Words
