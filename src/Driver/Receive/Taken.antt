-- ===== src/Driver/Receive/Taken.antt =====
-- tests/test_boot.c: the driver and the device after a message was received.
use xdna1_npu_emulator.Prelude.{
  ℕ, ◌+◌, ◌≤◌, ◌≡◌, refl, ◌≢◌, Option, some, List, eq→==, ne→==, length,
}
use xdna1_npu_emulator.Regs.{mbox_i2x_head_off}
use xdna1_npu_emulator.State.{XdnaMsgHeader, XdnaChannel, XdnaNpu}
use xdna1_npu_emulator.Mailbox.Send.{header_size}
use xdna1_npu_emulator.Mailbox.{write_chan_reg}
use xdna1_npu_emulator.Invariant.{ring_size, Safe}
use xdna1_npu_emulator.Invariant.Access.{regs-Safe}
use xdna1_npu_emulator.Driver.Receive.{Drv, Received}

-- The message is received, and the driver's position is the tail; of the device, only channels are
-- written, and channel `i` has the new position and its interrupt acknowledged.
pub record IsTaken (i : ℕ) (hdr : XdnaMsgHeader) (payload : List ℕ) (d : Drv) (t : XdnaNpu)
    (r : Option Received × Drv × XdnaNpu) : Type 0 where
  pub got : r.0 ≡ some (record { hdr = hdr; resp = payload })
  pub drv : r.1 ≡ record d { i2x_head = (t.chan i).i2x_tail }
  pub npu : r.2 ≡ record t { chan = r.2.chan }
  pub here : r.2.chan i ≡ record (t.chan i) { i2x_head = (t.chan i).i2x_tail; intr = 0 }
  pub others : (j : ℕ) → j ≢ i → r.2.chan j ≡ t.chan j
  pub safe : Safe r.2

module _ (i : ℕ) (hdr : XdnaMsgHeader) (payload : List ℕ) (d : Drv) (t : XdnaNpu)
    (f : ℕ → XdnaChannel) (p : ℕ) where
  abbrev next : ℕ
  next = p + header_size + length payload

  abbrev after : ℕ → Option Received × Drv × XdnaNpu
  after n = (
    some (record { hdr = hdr; resp = payload }),
    record d { i2x_head = n },
    write_chan_reg i mbox_i2x_head_off n (record t { chan = f }),
  )

  -- The search ended at position `p`, in the device `t` with the channels `f`.
  pub search-IsTaken :
      f i ≡ record (t.chan i) { i2x_head = p; intr = 0 }
      → next ≡ (t.chan i).i2x_tail
      → next + 4 ≤ ring_size i
      → ((j : ℕ) → j ≢ i → f j ≡ t.chan j)
      → Safe (record t { chan = f })
      → (r : Option Received × Drv × XdnaNpu) → r ≡ after next
      → IsTaken i hdr payload d t r
  unfolding write_chan_reg
  search-IsTaken here end fits old v r e = rw e (record {
    got = refl;
    drv = rw end refl;
    npu = refl;
    here = rw (eq→== i i refl) (λ k. record (here k) { i2x_head = end k });
    others = λ j o. rw (ne→== j i o) (old j o);
    safe = regs-Safe i (f i).x2i_tail next (f i).intr (record t { chan = f }) (λ _ _. fits) v;
  })
