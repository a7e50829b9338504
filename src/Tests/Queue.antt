-- ===== src/Tests/Queue.antt =====
-- Two queries that are queued on the management channel, and handled in one kick.
use xdna1_npu_emulator.Prelude.{ℕ, ◌^◌, ◌<◌, ◌≡◌, refl, List, [], ◌∷◌, ◌++◌, arith, u32_bytes}
use xdna1_npu_emulator.Mem.{read_bytes, write_bytes}
use xdna1_npu_emulator.State.{XdnaNpu, update}
use xdna1_npu_emulator.Mailbox.Send.{header_bytes}
use xdna1_npu_emulator.Mailbox.Process.{xdna_mbox_process}
use xdna1_npu_emulator.Invariant.{Safe}
use xdna1_npu_emulator.Invariant.Basic.{update-WellFormed, update-RingsSafe}
use xdna1_npu_emulator.Tests.States.{ready, ready-Safe, ready-chan, ready-active}
use xdna1_npu_emulator.Mailbox.Queue.{Message, Proper, handle_all, QueuedAll, process_handles_all}

-- Two queries, one behind the other.
abbrev versions : List Message
versions =
    record {
      hdr = record { total_size = 4; sz_ver = 0x10004; id = 7; opcode = 0x301 };
      payload = u32_bytes 0;
    }
    ∷ record {
      hdr = record { total_size = 4; sz_ver = 0x10004; id = 8; opcode = 0x108 };
      payload = u32_bytes 0;
    }
    ∷ []

abbrev queued_two : XdnaNpu
queued_two = record ready {
  sram = write_bytes ready.sram 0x21000 (
      header_bytes (record { total_size = 4; sz_ver = 0x10004; id = 7; opcode = 0x301 })
      ++ u32_bytes 0
      ++ header_bytes (record { total_size = 4; sz_ver = 0x10004; id = 8; opcode = 0x108 })
      ++ u32_bytes 0);
  chan = update ready.chan 0 (record (ready.chan 0) { x2i_tail = 40 });
}

queued_two-Safe : Safe queued_two
queued_two-Safe = (
  update-WellFormed ready-Safe.0 0 (record (ready.chan 0) { x2i_tail = 40 })
      (record {
        active = refl;
        index = refl;
        x2i_buf = refl;
        x2i_size = refl;
        i2x_buf = refl;
        i2x_size = refl;
      }),
  update-RingsSafe 0 (record (ready.chan 0) { x2i_tail = 40 }) (λ h a. ready-Safe.1.in_ring 0 h a)
      ready-Safe.1,
)

versions-Proper :
    (opcode id : ℕ)
    → opcode < 2 ^ 32
    → id < 2 ^ 32
    → Proper (record {
      hdr = record { total_size = 4; sz_ver = 0x10004; id = id; opcode = opcode };
      payload = u32_bytes 0;
    })
versions-Proper opcode id h k = record {
  words = record { total_size = omega arith; sz_ver = omega arith; id = k; opcode = h };
  size = refl;
  some_bytes = omega arith;
  aligned = refl;
}

queued_two-QueuedAll : QueuedAll versions queued_two
unfolding read_bytes write_bytes
queued_two-QueuedAll = record {
  active = ready-active;
  few = omega arith;
  laid = rw ready-chan (
    versions-Proper 0x301 7 (omega arith) (omega arith),
    record { header = refl; body = refl },
    (
      versions-Proper 0x108 8 (omega arith) (omega arith),
      record { header = refl; body = refl },
      tt,
    ),
  );
  fits = rw ready-chan (omega arith);
  tail = rw ready-chan refl;
}

process_handles_all_example : xdna_mbox_process 0 queued_two ≡ handle_all versions queued_two
process_handles_all_example =
    process_handles_all versions queued_two queued_two-Safe queued_two-QueuedAll
