-- ===== src/Qemu/Line.antt =====
-- The interrupt line of the PCI device, which is used where MSI-X is not enabled.
use xdna1_npu_emulator.Prelude.{
  ℕ, zero, suc, ◌%◌, ◌^◌, ◌≡◌, refl, subst, Bool, Option, none, some, List, [], ◌∷◌, leb, if_keeps,
}
use xdna1_npu_emulator.State.{HostEvent, logged, irq, read_phys, read, write, XdnaNpu, log_warn}
use xdna1_npu_emulator.Device.{xdna_npu_mmio_read, xdna_npu_mmio_write}
use xdna1_npu_emulator.Qemu.{msix_vectors, QemuCall, Qemu, XdnaNpuState}
use xdna1_npu_emulator.Qemu.Callbacks.{
  xdna_host_dma_read, xdna_host_dma_read_phys, xdna_host_dma_write, xdna_host_raise_irq,
  xdna_host_log, report, callback, callbacks, put_back, xdna_bar_read, xdna_bar_write,
}
use xdna1_npu_emulator.Qemu.Guest.{GuestAction, load, put, device_reset, act, guest_run, line}

abbrev IsHigh : List QemuCall → Type 0
IsHigh calls = line calls ≡ 1

module _ (q : Qemu) where
  report-IsHigh : (done : Bool) (calls : List QemuCall) → IsHigh calls → IsHigh (report done calls)
  report-IsHigh done calls h = if_keeps IsHigh done h h

  callback-IsHigh :
      (e : HostEvent) (before : List HostEvent) (calls : List QemuCall)
      → IsHigh calls
      → IsHigh (callback q e before calls)
  unfolding callback xdna_host_log xdna_host_raise_irq
  callback-IsHigh (logged level) before calls h = if_keeps IsHigh (leb level log_warn) h h
  callback-IsHigh (irq w) before calls h =
      if_keeps IsHigh (leb msix_vectors w) h (if_keeps IsHigh (q.msix_enabled calls) h refl)
  callback-IsHigh (read_phys addr len) before calls h =
      report-IsHigh (xdna_host_dma_read_phys q before addr len) calls h
  callback-IsHigh (read addr len) before calls h =
      report-IsHigh (xdna_host_dma_read q before addr len) calls h
  callback-IsHigh (write addr bytes) before calls h =
      report-IsHigh (xdna_host_dma_write q before addr bytes) calls h

  callbacks-IsHigh :
      (n : ℕ) (events : List HostEvent) (calls : List QemuCall)
      → IsHigh calls
      → IsHigh (callbacks q n events calls)
  unfolding callbacks
  callbacks-IsHigh zero events calls h = h
  callbacks-IsHigh (suc n) [] calls h = h
  callbacks-IsHigh (suc n) (e ∷ before) calls h =
      callback-IsHigh e before _ (callbacks-IsHigh n before calls h)

  abbrev Stays : Option XdnaNpuState → Type 0
  Stays none = Unit {0}
  Stays (some s) = IsHigh s.calls

  put_back-IsHigh :
      (old npu : XdnaNpu) (s : XdnaNpuState) → IsHigh s.calls → IsHigh (put_back q old npu s).calls
  unfolding put_back
  put_back-IsHigh old npu s h = callbacks-IsHigh _ npu.host s.calls h

  read-Stays :
      (ctx addr size : ℕ) (s : XdnaNpuState) → IsHigh s.calls → Stays (act q (load ctx addr size) s)
  unfolding act xdna_bar_read
  read-Stays ctx addr size s h = from s.emu
    where
      from :
          (o : Option XdnaNpu)
          → Stays
              (elim (elim o as (λ x. Option (ℕ × XdnaNpuState)) [
                | none ↦ none
                | some npu ↦
                    let r = xdna_npu_mmio_read (s.bar_ctx ctx) (addr % 2 ^ 32) size npu in
                    some (r.0, put_back q npu r.1 s)
              ])
                as (λ x. Option XdnaNpuState) [ none ↦ none | some r ↦ some r.1 ])
      from none = tt
      from (some npu) = put_back-IsHigh npu _ s h

  write-Stays :
      (ctx addr val size : ℕ) (s : XdnaNpuState)
      → IsHigh s.calls
      → Stays (act q (put ctx addr val size) s)
  unfolding act xdna_bar_write
  write-Stays ctx addr val size s h = from s.emu
    where
      from :
          (o : Option XdnaNpu)
          → Stays (elim o as (λ x. Option XdnaNpuState) [
            | none ↦ none
            | some npu ↦ some (
                put_back q npu (xdna_npu_mmio_write (s.bar_ctx ctx) (addr % 2 ^ 32) val size npu) s)
          ])
      from none = tt
      from (some npu) = put_back-IsHigh npu _ s h

  abbrev pub NoReset : List GuestAction → Type 0
  NoReset [] = Unit {0}
  NoReset (load ctx addr size ∷ acts) = NoReset acts
  NoReset (put ctx addr val size ∷ acts) = NoReset acts
  NoReset (device_reset ∷ acts) = ⊥

  then-Stays :
      (acts : List GuestAction) (o : Option XdnaNpuState)
      → ((t : XdnaNpuState) → IsHigh t.calls → Stays (guest_run q acts t))
      → Stays o
      → Stays (elim o [ none ↦ none | some t ↦ guest_run q acts t ])
  then-Stays acts none next h = tt
  then-Stays acts (some t) next h = next t h

  run-Stays :
      (acts : List GuestAction) (s : XdnaNpuState)
      → NoReset acts
      → IsHigh s.calls
      → Stays (guest_run q acts s)
  unfolding guest_run
  run-Stays [] s n h = h
  run-Stays (load ctx addr size ∷ acts) s n h =
      then-Stays acts _ (λ t. run-Stays acts t n) (read-Stays ctx addr size s h)
  run-Stays (put ctx addr val size ∷ acts) s n h =
      then-Stays acts _ (λ t. run-Stays acts t n) (write-Stays ctx addr val size s h)
  run-Stays (device_reset ∷ acts) s n h = absurd n

  -- Once the interrupt line is high, no reads and writes of the guest, the acknowledgement of the
  -- interrupt included, ever lower it: only a reset or the exit does.
  pub accesses_never_lower :
      (acts : List GuestAction) (s s' : XdnaNpuState)
      → NoReset acts
      → guest_run q acts s ≡ some s'
      → line s.calls ≡ 1
      → line s'.calls ≡ 1
  accesses_never_lower acts s s' n ran h = subst Stays ran (run-Stays acts s n h)
