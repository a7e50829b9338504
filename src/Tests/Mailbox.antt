-- ===== src/Tests/Mailbox.antt =====
-- Results on the mailbox, at concrete messages.
use xdna1_npu_emulator.Prelude.{
  ℕ, ◌+◌, ◌≤◌, ◌≡◌, refl, inl, inr, true, ◌++◌, arith, add32, u32_bytes,
}
use xdna1_npu_emulator.Mem.{read_bytes, write_bytes}
use xdna1_npu_emulator.State.{XdnaMsgHeader, XdnaNpu, update}
use xdna1_npu_emulator.Mert.{xdna_mert_handle}
use xdna1_npu_emulator.Mailbox.Channel.{xdna_mbox_channel_reset, reset_from, xdna_mbox_reset}
use xdna1_npu_emulator.Mailbox.Send.{
  header_size, header_bytes, message_header, package_size, write_tail, xdna_mbox_send,
}
use xdna1_npu_emulator.Mailbox.Process.{consume, xdna_mbox_process}
use xdna1_npu_emulator.Mailbox.Deliver.{MessageAt, Delivered}
use xdna1_npu_emulator.Mailbox.Outgoing.{IsUnread, send_delivers, send_keeps_unread}
use xdna1_npu_emulator.Device.{xdna_npu_reset, xdna_npu_new}
use xdna1_npu_emulator.Invariant.{ring_size, Inv, Safe}
use xdna1_npu_emulator.Invariant.Basic.{update-WellFormed, update-RingsSafe}
use xdna1_npu_emulator.Invariant.ProcessSafe.{process-Safe}
use xdna1_npu_emulator.Tests.States.{
  fresh, ready, ready-Safe, ready-chan, ready-active, four_bytes, sent_once, sent_once-Safe,
  sent_once-chan, filled, filled-Safe,
}
use xdna1_npu_emulator.Mailbox.Incoming.{AtHead, process_handles}
use xdna1_npu_emulator.Mailbox.Overrun.{send_overwrites, send_leaves_ring, send_faults}
use xdna1_npu_emulator.Mailbox.Refused.{Refused, send_fails_quietly}

-- A query for the protocol version that the driver has put into the ring of the management channel.
abbrev query : XdnaMsgHeader
query = record { total_size = 4; sz_ver = 0x10004; id = 7; opcode = 0x301 }

abbrev queued : XdnaNpu
queued = record ready {
  sram = write_bytes ready.sram 0x21000 (header_bytes query ++ u32_bytes 0);
  chan = update ready.chan 0 (record (ready.chan 0) { x2i_tail = 20 });
}

queued-Inv : Inv queued
queued-Inv =
    update-WellFormed ready-Safe.0 0 (record (ready.chan 0) { x2i_tail = 20 })
      (record {
        active = refl;
        index = refl;
        x2i_buf = refl;
        x2i_size = refl;
        i2x_buf = refl;
        i2x_size = refl;
      })

queued-AtHead : AtHead 0 query (u32_bytes 0) queued
unfolding read_bytes write_bytes
queued-AtHead = record {
  channel = omega arith;
  active = ready-active;
  words = record {
    total_size = omega arith;
    sz_ver = omega arith;
    id = omega arith;
    opcode = omega arith;
  };
  message = rw ready-chan (record { header = refl; body = refl });
  size = refl;
  some_bytes = omega arith;
  aligned = refl;
  fits = rw ready-chan (omega arith);
}

process_handles_example :
    xdna_mbox_process 0 queued ≡ xdna_mert_handle 0 query (u32_bytes 0) (consume 0 4 queued)
process_handles_example =
    process_handles 0 query (u32_bytes 0) queued queued-Inv queued-AtHead (rw ready-chan refl)

process-Safe_example : Safe (xdna_mbox_process 0 queued)
process-Safe_example = process-Safe 0 queued (
  queued-Inv,
  update-RingsSafe 0 (record (ready.chan 0) { x2i_tail = 20 }) (λ h a. ready-Safe.1.in_ring 0 h a)
      ready-Safe.1,
)

send_delivers_example :
    let r = xdna_mbox_send 0 7 0x301 four_bytes ready in
    let at = write_tail (ready.chan 0) (package_size four_bytes) in
    (r.0 ≡ true)
    × Delivered 0 at (message_header 4 7 0x301) four_bytes ready r.1
    × (at + header_size + 4 + 4 ≤ ring_size 0)
send_delivers_example =
    send_delivers 0 7 0x301 four_bytes ready (omega arith) ready-active ready-Safe (omega arith)
      (rw ready-chan refl)

send_keeps_unread_example :
    let t = (xdna_mbox_send 0 8 0x301 four_bytes sent_once).1 in
    let at = (sent_once.chan 0).i2x_buf + 5 in t.sram at ≡ sent_once.sram at
send_keeps_unread_example =
    send_keeps_unread 0 8 0x301 four_bytes sent_once (omega arith) (rw sent_once-chan refl)
      sent_once-Safe (omega arith) (rw sent_once-chan refl) 5
      (rw sent_once-chan (inl (omega arith, omega arith, omega arith)))
      (inr (rw sent_once-chan refl))

send_fails_quietly_example :
    Refused
      (add32 (fresh.chan 3).i2x_buf (fresh.chan 3).i2x_tail)
      fresh
      (xdna_mbox_send 3 7 0x301 four_bytes fresh).1
unfolding xdna_mbox_send xdna_npu_new xdna_npu_reset xdna_mbox_reset reset_from
    xdna_mbox_channel_reset
send_fails_quietly_example = send_fails_quietly 3 7 0x301 four_bytes fresh refl

send_overwrites_example :
    let r = xdna_mbox_send 0 8 0x301 four_bytes filled in
    IsUnread 0 (filled.chan 0) 0
    × (r.0 ≡ true)
    × MessageAt (filled.chan 0).i2x_buf (message_header 4 8 0x301) four_bytes r.1.sram
    × ((r.1.chan 0).i2x_tail ≡ header_size + 4)
send_overwrites_example =
    send_overwrites 0 8 0x301 four_bytes filled (omega arith) ready-active filled-Safe (omega arith)
      (rw ready-chan refl) (omega arith)

-- The driver has moved its read position past the ring.
abbrev ahead : ℕ → XdnaNpu
ahead tail = record ready {
  chan = update ready.chan 0 (record (ready.chan 0) { i2x_head = 0x40000; i2x_tail = tail });
}

ahead-Inv : (tail : ℕ) → Inv (ahead tail)
ahead-Inv tail =
    update-WellFormed ready-Safe.0 0 (record (ready.chan 0) { i2x_head = 0x40000; i2x_tail = tail })
      (record {
        active = refl;
        index = refl;
        x2i_buf = refl;
        x2i_size = refl;
        i2x_buf = refl;
        i2x_size = refl;
      })

send_leaves_ring_example :
    let r = xdna_mbox_send 0 8 0x301 four_bytes (ahead 0x1000) in
    (r.0 ≡ true) × ((r.1.chan 0).i2x_tail ≡ 0x1000 + header_size + 4)
send_leaves_ring_example =
    send_leaves_ring 0 8 0x301 four_bytes (ahead 0x1000) (omega arith) ready-active
      (ahead-Inv 0x1000) (omega arith) (omega arith) (omega arith)

send_faults_example :
    let r = xdna_mbox_send 0 8 0x301 four_bytes (ahead 0x1E000) in (r.0 ≡ true) × (r.1.fault ≡ true)
send_faults_example =
    send_faults 0 8 0x301 four_bytes (ahead 0x1E000) (omega arith) ready-active (ahead-Inv 0x1E000)
      (omega arith) (omega arith) (omega arith) (rw ready-chan (omega arith))
