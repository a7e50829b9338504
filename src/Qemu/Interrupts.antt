-- ===== src/Qemu/Interrupts.antt =====
-- The interrupts of the core on their way to the guest.
use xdna1_npu_emulator.Prelude.{
  ℕ, suc, ◌+◌, ◌-◌, ◌%◌, ◌^◌, ◌≤◌, ◌≡◌, refl, Bool, true, false, some, List, [], ◌∷◌, arith, ◌==◌,
  if◌then◌else◌, lt→leb, length,
}
use xdna1_npu_emulator.State.{HostEvent, logged, irq, read_phys, read, write, XdnaNpu}
use xdna1_npu_emulator.Device.{xdna_npu_mmio_write}
use xdna1_npu_emulator.Invariant.{Inv}
use xdna1_npu_emulator.Invariant.Events.{IsChannelIrq, Added, unchanged, added, Tracked}
use xdna1_npu_emulator.Invariant.Events.Access.{mmio_write-Tracked}
use xdna1_npu_emulator.Qemu.{msix_vectors, QemuCall, notify_msix, Qemu, XdnaNpuState}
use xdna1_npu_emulator.Qemu.Callbacks.{
  xdna_host_dma_read, xdna_host_dma_read_phys, xdna_host_dma_write, xdna_host_raise_irq,
  xdna_host_log, report, callback, callbacks, put_back, xdna_bar_write,
}
use xdna1_npu_emulator.Qemu.Realize.{Ready}

-- How often the core has raised a vector.
abbrev pub raised : ℕ → List HostEvent → ℕ
raised v [] = 0
raised v (irq w ∷ es) = (if v == w then 1 else 0) + raised v es
raised v (logged level ∷ es) = raised v es
raised v (read_phys addr len ∷ es) = raised v es
raised v (read addr len ∷ es) = raised v es
raised v (write addr bytes ∷ es) = raised v es

notified_by : ℕ → QemuCall → ℕ
notified_by v (notify_msix w) = if v == w then 1 else 0
notified_by v c = 0

-- How often a vector was given to `msix_notify`.
unfoldable pub notified : ℕ → List QemuCall → ℕ
unfolding notified_by
notified v [] = 0
notified v (c ∷ cs) = notified_by v c + notified v cs

pub Added-length : {before now : List HostEvent} → Added before now → length before ≤ length now
Added-length unchanged = omega arith
Added-length (added e f a) = omega (arith, Added-length a)

-- The core has changed and is still well formed.
pub put_back-Ready :
    (q : Qemu) (s : XdnaNpuState) (old npu : XdnaNpu)
    → Inv npu
    → Ready s old
    → Ready (put_back q old npu s) npu
unfolding put_back
put_back-Ready q s old npu w r = record {
  emu = refl;
  inv = w;
  msix_initialized = r.msix_initialized;
  heap = r.heap;
}

module _ (q : Qemu) (enabled : (calls : List QemuCall) → q.msix_enabled calls ≡ true) (v : ℕ) where
  report-notified :
      (done : Bool) (calls : List QemuCall) → notified v (report done calls) ≡ notified v calls
  unfolding notified
  report-notified true calls = refl
  report-notified false calls = omega arith

  callback-notified :
      (e : HostEvent) (before : List HostEvent) (calls : List QemuCall)
      → IsChannelIrq e
      → notified v (callback q e before calls) + raised v before
        ≡ notified v calls + raised v (e ∷ before)
  unfolding callback xdna_host_log xdna_host_raise_irq notified
  callback-notified (logged level) before calls f = ground arith
  callback-notified (irq w) before calls f =
      rw (lt→leb msix_vectors w (omega arith)) (rw (enabled calls) (omega arith))
  callback-notified (read_phys addr len) before calls f =
      rw (report-notified (xdna_host_dma_read_phys q before addr len) calls) refl
  callback-notified (read addr len) before calls f =
      rw (report-notified (xdna_host_dma_read q before addr len) calls) refl
  callback-notified (write addr bytes) before calls f =
      rw (report-notified (xdna_host_dma_write q before addr bytes) calls) refl

  callbacks-notified :
      {before now : List HostEvent} (calls : List QemuCall)
      → Added before now
      → notified v (callbacks q (length now - length before) now calls) + raised v before
        ≡ notified v calls + raised v now
  unfolding callbacks
  callbacks-notified {before} calls unchanged =
      let none_new : length before - length before ≡ 0 = omega arith in rw none_new refl
  callbacks-notified {before} calls (added {now} e f a) =
      let one_more : suc (length now) - length before ≡ suc (length now - length before) =
        omega (arith, Added-length a) in
      rw one_more (
        omega (
          arith,
          callbacks-notified calls a,
          callback-notified e now (callbacks q (length now - length before) now calls) f,
        ))

  put_back-notified :
      (s : XdnaNpuState) (old npu : XdnaNpu)
      → Added old.host npu.host
      → notified v (put_back q old npu s).calls + raised v old.host
        ≡ notified v s.calls + raised v npu.host
  unfolding put_back
  put_back-notified s old npu a = callbacks-notified s.calls a

  -- While MSI-X is enabled, a write of the guest to a device that is ready succeeds, and every
  -- interrupt that the core raises in it is given to `msix_notify`, as often as it was raised: the
  -- test on the vector drops none.
  pub bar_write_notifies :
      (ctx addr val size : ℕ) (s : XdnaNpuState) (npu : XdnaNpu)
      → Ready s npu
      → (s' : XdnaNpuState) × (npu' : XdnaNpu) × (xdna_bar_write q ctx addr val size s ≡ some s')
        × Ready s' npu'
        × (notified v s'.calls + raised v npu.host ≡ notified v s.calls + raised v npu'.host)
  unfolding xdna_bar_write
  bar_write_notifies ctx addr val size s npu r =
      let npu' = xdna_npu_mmio_write (s.bar_ctx ctx) (addr % 2 ^ 32) val size npu in
      let t : Tracked npu.host npu' =
        mmio_write-Tracked npu.host (s.bar_ctx ctx) (addr % 2 ^ 32) val size npu
          (r.inv, unchanged) in
      (
        put_back q npu npu' s,
        npu',
        rw r.emu refl,
        put_back-Ready q s npu npu' t.0 r,
        put_back-notified s npu npu' t.1,
      )
