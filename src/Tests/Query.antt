-- ===== src/Tests/Query.antt =====
-- The driver finds the management channel after a boot, and asks for the protocol version.
use xdna1_npu_emulator.Tests.Receive.{driver, driver-Attached, driver-Feeds}
use xdna1_npu_emulator.Tests.States.{fresh, ready, ready-Safe, ready-chan, ready-active, four_bytes}
use xdna1_npu_emulator.Prelude.{ℕ, ◌+◌, ◌≡◌, refl, sym, ◌∙◌, true, some, List, arith}
use xdna1_npu_emulator.Regs.Opcodes.{msg_op_get_protocol_version}
use xdna1_npu_emulator.Mailbox.Send.{header_size, message_header}
use xdna1_npu_emulator.Mailbox.Process.{consume}
use xdna1_npu_emulator.Mert.Wire.{protocol_version_bytes}
use xdna1_npu_emulator.Mert.{protocol_version, xdna_mert_handle}
use xdna1_npu_emulator.Firmware.{xdna_fw_boot}
use xdna1_npu_emulator.Driver.Send.{request_id, advance, mbox_send, mbox_send_recv}
use xdna1_npu_emulator.Driver.Send.Reaches.{request_header, Sendable, with_request, send_reaches}
use xdna1_npu_emulator.Driver.Send.Query.{protocol, Asks, query_answered}
use xdna1_npu_emulator.Driver.Attach.{drv_get_mgmt_chann_info}
use xdna1_npu_emulator.Driver.Attach.Boot.{KnowsMgmt, cleared_alive, driver_attaches}

driver_attaches_example :
    let r = drv_get_mgmt_chann_info driver (xdna_fw_boot fresh) in
    (r.0 ≡ true)
    × KnowsMgmt ((xdna_fw_boot fresh).chan 0) r.1
    × (r.2 ≡ cleared_alive (xdna_fw_boot fresh))
driver_attaches_example = driver_attaches driver fresh (refl, refl)

abbrev op : ℕ
op = msg_op_get_protocol_version

abbrev reply : List ℕ
reply = protocol_version_bytes protocol_version

request-Sendable : Sendable 0 op four_bytes driver ready
request-Sendable = record {
  channel = omega arith;
  active = ready-active;
  feeds = driver-Feeds;
  drained = rw ready-chan refl;
  fits = rw ready-chan (omega arith);
  some_bytes = omega arith;
  aligned = refl;
  words = record {
    total_size = omega arith;
    sz_ver = omega arith;
    id = omega arith;
    opcode = omega arith;
  };
}

send_reaches_example : mbox_send op four_bytes driver ready ≡ (
  some (request_id driver),
  advance ((ready.chan 0).x2i_tail + header_size + 4) driver,
  xdna_mert_handle 0
      (request_header op four_bytes driver)
      four_bytes
      (consume 0 4 (with_request 0 op four_bytes driver ready)),
)
send_reaches_example = send_reaches 0 op four_bytes driver ready ready-Safe.0 request-Sendable

ready-alive : ready.fw_alive ≡ true
ready-alive = sym ready-Safe.0.mgmt ∙ ready-active

asks : Asks 0 op four_bytes reply driver ready
asks = record {
  safe = ready-Safe;
  alive = ready-alive;
  request = request-Sendable;
  query = protocol refl refl;
  opcode = omega arith;
  id = omega arith;
  outgoing = driver-Attached;
  read_all = rw ready-chan refl;
  fits = rw ready-chan (omega arith);
}

query_answered_example :
    (mbox_send_recv op four_bytes 12 driver ready).0
    ≡ some (record { hdr = message_header 12 (request_id driver) op; resp = reply })
query_answered_example = query_answered 0 op four_bytes reply driver ready asks
