-- ===== src/Invariant/Reach.antt =====
-- The device under any driver: every state that accesses to the BARs reach from a reset.
use xdna1_npu_emulator.Prelude.{ℕ, ◌≡◌, refl, ◌≢◌, false, List, [], ◌∷◌, arith, add32}
use xdna1_npu_emulator.State.{XdnaHostOps, cold, running, XdnaNpu}
use xdna1_npu_emulator.Device.{
  context_zero, npu_zero, xdna_npu_reset, xdna_npu_new, xdna_npu_mmio_read_buf,
  xdna_npu_mmio_write_buf,
}
use xdna1_npu_emulator.Device.Kept.{AccessKept, WordsAllowed, write_buf-keeps, read_buf-keeps}
use xdna1_npu_emulator.Mailbox.Channel.{channel_zero}
use xdna1_npu_emulator.Invariant.{Inv, Safe}
use xdna1_npu_emulator.Invariant.Basic.{xdna_log-keeps, store-Inv, store-Safe}
use xdna1_npu_emulator.Invariant.Reset.{
  all_reset, mbox_reset-eq, all_reset-at, idle-WellFormed, idle-RingsSafe,
}
use xdna1_npu_emulator.Invariant.Commands.{psp_kick-Inv, psp_kick-Safe, smu_kick-Inv, smu_kick-Safe}
use xdna1_npu_emulator.Invariant.Access.{KeepsHead, mbox_reg_write-Inv, mbox_reg_write-Safe}

-- Any value may be written.
abbrev pub Anything : ℕ → ℕ → Type 0
Anything off val = Unit {0}

pub Inv-AccessKept : AccessKept Inv Anything
Inv-AccessKept = record {
  log = λ level s w. xdna_log-keeps Inv level s w w;
  waits = λ v s w. w;
  sec = λ v s w. w;
  pwr = λ v s w. w;
  scratch = λ f s w. w;
  psp = psp_kick-Inv;
  smu = smu_kick-Inv;
  mbox = λ off val s _ w. mbox_reg_write-Inv off val s w;
  stored = λ off bs s _ w. store-Inv off bs s w;
}

Safe-AccessKept : AccessKept Safe KeepsHead
Safe-AccessKept = record {
  log = λ level s v. xdna_log-keeps Safe level s v v;
  waits = λ x s v. v;
  sec = λ x s v. v;
  pwr = λ x s v. v;
  scratch = λ f s v. v;
  psp = psp_kick-Safe;
  smu = smu_kick-Safe;
  mbox = mbox_reg_write-Safe;
  stored = store-Safe;
}

pub any_words : (bar off : ℕ) (bs : List ℕ) → WordsAllowed Anything bar off bs
any_words bar off (a ∷ b ∷ c ∷ d ∷ rest) = ((λ _. tt), any_words bar (add32 off 4) rest)
any_words bar off [] = tt
any_words bar off (a ∷ []) = λ _. tt
any_words bar off (a ∷ b ∷ []) = λ _. tt
any_words bar off (a ∷ b ∷ c ∷ []) = λ _. tt

-- An access to a BAR, or a reset.
pub data Access : Type 0 where
  reset : Access
  get : ℕ → ℕ → ℕ → Access
  put : ℕ → ℕ → List ℕ → Access

unfoldable pub access : Access → XdnaNpu → XdnaNpu
access reset s = xdna_npu_reset s
access (get bar off len) s = (xdna_npu_mmio_read_buf bar off len s).1
access (put bar off bs) s = xdna_npu_mmio_write_buf bar off bs s

-- The accesses in order.
unfoldable pub run : List Access → XdnaNpu → XdnaNpu
run [] s = s
run (a ∷ more) s = run more (access a s)

-- The driver writes no read position that leaves its ring.
abbrev pub Polite : List Access → Type 0
Polite [] = Unit {0}
Polite (reset ∷ more) = Polite more
Polite (get bar off len ∷ more) = Polite more
Polite (put bar off bs ∷ more) = WordsAllowed KeepsHead bar off bs × Polite more

cold-ne-running : cold ≢ running
cold-ne-running e = cc

-- A reset leaves an idle device, whatever it was doing.
pub reset-Inv : (s : XdnaNpu) → Inv (xdna_npu_reset s)
unfolding xdna_npu_reset
reset-Inv s = rw mbox_reset-eq (
    idle-WellFormed (all_reset (λ i. channel_zero)) (λ i. context_zero) cold 0
      (all_reset-at (λ i. channel_zero)) (λ j h. refl) cold-ne-running (omega arith))

pub reset-Safe : (s : XdnaNpu) → s.fault ≡ false → Safe (xdna_npu_reset s)
unfolding xdna_npu_reset
reset-Safe s ok = (
  reset-Inv s,
  rw mbox_reset-eq (
      idle-RingsSafe (all_reset (λ i. channel_zero)) s.fault (all_reset-at (λ i. channel_zero)) ok),
)

access-Inv : (a : Access) (s : XdnaNpu) → Inv s → Inv (access a s)
unfolding access
access-Inv reset s w = reset-Inv s
access-Inv (get bar off len) s w = read_buf-keeps Inv-AccessKept bar off len s w
access-Inv (put bar off bs) s w =
    write_buf-keeps Inv-AccessKept bar off bs s (any_words bar off bs) w

run-Inv : (acts : List Access) (s : XdnaNpu) → Inv s → Inv (run acts s)
unfolding run
run-Inv [] s w = w
run-Inv (a ∷ more) s w = run-Inv more (access a s) (access-Inv a s w)

run-Safe : (acts : List Access) (s : XdnaNpu) → Polite acts → Safe s → Safe (run acts s)
unfolding run access
run-Safe [] s h v = v
run-Safe (reset ∷ more) s h v = run-Safe more (xdna_npu_reset s) h (reset-Safe s v.1.no_fault)
run-Safe (get bar off len ∷ more) s h v =
    run-Safe more (xdna_npu_mmio_read_buf bar off len s).1 h
      (read_buf-keeps Safe-AccessKept bar off len s v)
run-Safe (put bar off bs ∷ more) s h v =
    run-Safe more (xdna_npu_mmio_write_buf bar off bs s) h.1
      (write_buf-keeps Safe-AccessKept bar off bs s h.0 v)

-- Whatever reads, writes and resets a driver makes from the creation of the device on, with
-- whatever values and whatever answers of the host, the device is well formed: a channel is active
-- exactly while its context is valid (channel 0: while the firmware is alive), the rings of an
-- active channel are those of its index, the PSP is running only with the firmware alive, the
-- counter of contexts is the number of valid slots, and the DPM level is in range.
pub run_new-Inv : (ops : XdnaHostOps) (acts : List Access) → Inv (run acts (xdna_npu_new ops))
unfolding xdna_npu_new
run_new-Inv ops acts = run-Inv acts _ (reset-Inv (npu_zero ops []))

-- If every read position that the driver writes leaves the last word of its ring free, no `memcpy`
-- or `memset` ever leaves the SRAM, whatever accesses and resets it makes otherwise from the creation
-- of the device on.
pub run_new-safe :
    (ops : XdnaHostOps) (acts : List Access)
    → Polite acts
    → (run acts (xdna_npu_new ops)).fault ≡ false
unfolding xdna_npu_new
run_new-safe ops acts h = (run-Safe acts _ h (reset-Safe (npu_zero ops []) refl)).1.no_fault
