-- ===== src/Tests/Create.antt =====
-- The driver creates a context on a device that has just been started.
use xdna1_npu_emulator.Prelude.{ℕ, ◌≡◌, refl, some, List, [], ◌∷◌, arith}
use xdna1_npu_emulator.Regs.Opcodes.{msg_op_create_context}
use xdna1_npu_emulator.State.{update}
use xdna1_npu_emulator.Mailbox.Send.{message_header}
use xdna1_npu_emulator.Mert.Wire.{create_ctx_bytes, create_ctx_req}
use xdna1_npu_emulator.Mert.Context.{create_resp}
use xdna1_npu_emulator.Mert.Lifecycle.{new_context}
use xdna1_npu_emulator.Driver.Send.{request_id, mbox_send_recv}
use xdna1_npu_emulator.Tests.States.{ready, ready-Safe, ready-chan, ready-active}
use xdna1_npu_emulator.Tests.Receive.{driver, driver-Attached, driver-Feeds}
use xdna1_npu_emulator.Driver.Session.Hand.{Idle}
use xdna1_npu_emulator.Driver.Session.Create.{Advertises, AsksContext, create_received}
use xdna1_npu_emulator.Tests.Firmware.{ready-LowestFree}

-- One column, at priority 3.
abbrev request : List ℕ
request =
    1 ∷ 0 ∷ 0 ∷ 0 ∷ 0 ∷ 1 ∷ 0 ∷ 0 ∷ 1 ∷ 0 ∷ 0 ∷ 0 ∷ 0 ∷ 0 ∷ 0 ∷ 0 ∷ 0 ∷ 0 ∷ 0 ∷ 0 ∷ 0 ∷ 0 ∷ 0 ∷ 0
    ∷ 3 ∷ 0 ∷ 0 ∷ 0 ∷ []

driver-Idle : Idle driver ready
driver-Idle = record {
  safe = ready-Safe;
  active = ready-active;
  feeds = driver-Feeds;
  outgoing = driver-Attached;
  drained = rw ready-chan refl;
  read_all = rw ready-chan refl;
  in_ring = rw ready-chan (omega arith);
}

asks : AsksContext 0 request driver ready
asks = record {
  idle = driver-Idle;
  handy = record { some_bytes = omega arith; aligned = refl; half = omega arith };
  valid = record { long = omega arith; some_col = omega arith; in_array = omega arith };
  free = ready-LowestFree;
}

create_received_example :
    let r = mbox_send_recv msg_op_create_context request 76 driver ready in
    (r.0
      ≡ some (record {
        hdr = message_header 76 (request_id driver) msg_op_create_context;
        resp = create_ctx_bytes (create_resp 0 ready.next_ctx_id);
      }))
    × Advertises (create_resp 0 ready.next_ctx_id) (r.2.chan 1)
    × (r.2.ctx ≡ update ready.ctx 0 (new_context 0 (create_ctx_req request) ready.next_ctx_id))
    × Idle r.1 r.2
create_received_example = create_received 0 request driver ready asks
