-- ===== src/Qemu/Guest.antt =====
-- The PCI device under any guest: accesses and resets between realize and exit.
use xdna1_npu_emulator.Prelude.{ℕ, ◌%◌, ◌^◌, ◌≡◌, refl, Option, none, some, List, [], ◌∷◌}
use xdna1_npu_emulator.State.{XdnaNpu}
use xdna1_npu_emulator.Device.{xdna_npu_reset, xdna_npu_mmio_read, xdna_npu_mmio_write}
use xdna1_npu_emulator.Invariant.{Inv}
use xdna1_npu_emulator.Invariant.Events.{unchanged, Tracked}
use xdna1_npu_emulator.Invariant.Events.Access.{
  mmio_read-Tracked, mmio_write-Tracked, reset-Tracked,
}
use xdna1_npu_emulator.Qemu.{QemuCall, set_irq, Qemu, XdnaNpuState}
use xdna1_npu_emulator.Qemu.Callbacks.{put_back, xdna_bar_read, xdna_bar_write}
use xdna1_npu_emulator.Qemu.Lifecycle.{reset_emu, xdna_npu_reset_hold, xdna_npu_exit}
use xdna1_npu_emulator.Qemu.Realize.{MsixLaw, Released, Ready, exit-Released}
use xdna1_npu_emulator.Qemu.Interrupts.{put_back-Ready}

-- An access through the region with an opaque value, or a reset of the device.
pub data GuestAction : Type 0 where
  load : ℕ → ℕ → ℕ → GuestAction
  put : ℕ → ℕ → ℕ → ℕ → GuestAction
  device_reset : GuestAction

unfoldable pub act : Qemu → GuestAction → XdnaNpuState → Option XdnaNpuState
act q (load ctx addr size) s = elim (xdna_bar_read q ctx addr size s) [
  | none ↦ none
  | some r ↦ some r.1
]
act q (put ctx addr val size) s = xdna_bar_write q ctx addr val size s
act q device_reset s = some (xdna_npu_reset_hold q s)

-- `none` if some access follows a NULL pointer.
unfoldable pub guest_run : Qemu → List GuestAction → XdnaNpuState → Option XdnaNpuState
guest_run q [] s = some s
guest_run q (a ∷ acts) s = elim (act q a s) [ none ↦ none | some t ↦ guest_run q acts t ]

reset_hold-Ready :
    (q : Qemu) (s : XdnaNpuState) (npu : XdnaNpu)
    → Ready s npu
    → Ready (xdna_npu_reset_hold q s) (xdna_npu_reset npu)
unfolding xdna_npu_reset_hold reset_emu put_back
reset_hold-Ready q s npu r =
    rw (r.emu, r.msix_initialized)
      (record {
        emu = refl;
        inv = (reset-Tracked npu.host npu (r.inv, unchanged)).0;
        msix_initialized = refl;
        heap = r.heap;
      })

act-Ready :
    (q : Qemu) (a : GuestAction) (s : XdnaNpuState) (npu : XdnaNpu)
    → Ready s npu
    → (s' : XdnaNpuState) × (npu' : XdnaNpu) × (act q a s ≡ some s') × Ready s' npu'
unfolding act xdna_bar_read xdna_bar_write
act-Ready q (load ctx addr size) s npu r =
    let npu' = (xdna_npu_mmio_read (s.bar_ctx ctx) (addr % 2 ^ 32) size npu).1 in
    let t : Tracked npu.host npu' =
      mmio_read-Tracked npu.host (s.bar_ctx ctx) (addr % 2 ^ 32) size npu (r.inv, unchanged) in
    (put_back q npu npu' s, npu', rw r.emu refl, put_back-Ready q s npu npu' t.0 r)
act-Ready q (put ctx addr val size) s npu r =
    let npu' = xdna_npu_mmio_write (s.bar_ctx ctx) (addr % 2 ^ 32) val size npu in
    let t : Tracked npu.host npu' =
      mmio_write-Tracked npu.host (s.bar_ctx ctx) (addr % 2 ^ 32) val size npu (r.inv, unchanged) in
    (put_back q npu npu' s, npu', rw r.emu refl, put_back-Ready q s npu npu' t.0 r)
act-Ready q device_reset s npu r =
    (xdna_npu_reset_hold q s, xdna_npu_reset npu, refl, reset_hold-Ready q s npu r)

guest_run-Ready :
    (q : Qemu) (acts : List GuestAction) (s : XdnaNpuState) (npu : XdnaNpu)
    → Ready s npu
    → (s' : XdnaNpuState) × (npu' : XdnaNpu) × (guest_run q acts s ≡ some s') × Ready s' npu'
unfolding guest_run
guest_run-Ready q [] s npu r = (s, npu, refl, r)
guest_run-Ready q (a ∷ acts) s npu r =
    let (t, n, step, r') = act-Ready q a s npu r in
    let (s', n', rest, r'') = guest_run-Ready q acts t n r' in
    (s', n', rw (step, guest_run) rest, r'')

-- The level that the interrupt line was last set to.
abbrev pub line : List QemuCall → ℕ
line [] = 0
line (set_irq level ∷ calls) = level
line (c ∷ calls) = line calls

-- Whatever accesses and resets a guest makes on a device that is ready, no access follows a NULL
-- pointer, the device holds a core afterwards, which is well formed, and the exit then gives the
-- core, both of its blocks of memory and MSI-X back, and lowers the interrupt line.
pub guest_runs_then-Released :
    (q : Qemu)
    → MsixLaw q
    → (acts : List GuestAction) (s : XdnaNpuState) (npu : XdnaNpu) → Ready s npu
    → (s' : XdnaNpuState) × (npu' : XdnaNpu) × (guest_run q acts s ≡ some s')
      × (s'.emu ≡ some npu')
      × Inv npu'
      × Released q (xdna_npu_exit s')
      × (line (xdna_npu_exit s').calls ≡ 0)
unfolding xdna_npu_exit
guest_runs_then-Released q law acts s npu r =
    let (s', n, ran, r') = guest_run-Ready q acts s npu r in
    (s', n, ran, r'.emu, r'.inv, exit-Released q law s' n r', refl)
