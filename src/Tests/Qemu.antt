-- ===== src/Tests/Qemu.antt =====
-- The PCI device in a QEMU that answers as documented, and the theorems about it at concrete inputs.
use xdna1_npu_emulator.Tests.States.{ready, ready-Safe}
use xdna1_npu_emulator.Invariant.Basic.{store-Inv}
use xdna1_npu_emulator.Prelude.{
  ℕ, ◌+◌, ◌%◌, ◌^◌, ◌≤◌, ◌<◌, ◌≡◌, refl, ◌⊎◌, inl, Bool, true, false, none, some, List, [], ◌∷◌,
  ◌++◌, arith, u32_bytes,
}
use xdna1_npu_emulator.Regs.{
  bar_sram, bar_reg_size, reg_pub_sec_intr, reg_scratch2, psp_notify_val, sram_mgmt_x2i_off,
  mbox_x2i_tail_off, mbox_intr_off,
}
use xdna1_npu_emulator.State.{XdnaNpu, log_debug, xdna_log, store}
use xdna1_npu_emulator.Device.{
  xdna_npu_bar_size, xdna_npu_new, reg_bar_read, reg_bar_write, xdna_npu_mmio_read,
  xdna_npu_mmio_write,
}
use xdna1_npu_emulator.Device.Alloc.{calloc, alloc_npu}
use xdna1_npu_emulator.Invariant.{Inv}
use xdna1_npu_emulator.Qemu.{
  msix_table_offset, msix_pba_offset, MemoryRegion, QemuCall, init_msix, uninit_msix, set_irq, Qemu,
  XdnaNpuState,
}
use xdna1_npu_emulator.Qemu.Callbacks.{xdna_host_ops, put_back, xdna_bar_read, xdna_bar_write}
use xdna1_npu_emulator.Qemu.Lifecycle.{
  new_emu, ctx_bars, register_bars, use_vectors, realize_cap, realize_bars, xdna_npu_realize,
  xdna_npu_exit,
}
use xdna1_npu_emulator.Qemu.Realize.{
  changes_msix, MsixLaw, Released, Ready, new-Inv, realize-Ready_or_Released,
}
use xdna1_npu_emulator.Qemu.Interrupts.{raised, notified, bar_write_notifies}
use xdna1_npu_emulator.Qemu.Guest.{
  GuestAction, load, put, device_reset, act, guest_run, line, guest_runs_then-Released,
}
use xdna1_npu_emulator.Qemu.Bars.{
  region_of, realize_routes_bars, msix_table_size, msix_hides_no_register,
}
use xdna1_npu_emulator.Qemu.Line.{accesses_never_lower}

-- The capability is there from `msix_init` on until `msix_uninit`.
abbrev has_msix : List QemuCall → Bool
has_msix [] = false
has_msix (init_msix n tb to pb po ∷ calls) = true
has_msix (uninit_msix ∷ calls) = false
has_msix (c ∷ calls) = has_msix calls

-- Everything succeeds, and the guest has enabled MSI-X.
abbrev willing : Qemu
willing = record {
  msix_enabled = λ calls. true;
  msix_present = has_msix;
  msix_init = λ calls. true;
  pcie_endpoint_cap_init = λ calls. true;
  pci_dma_read = λ events addr len. 0;
  dma_memory_read = λ events addr len. 0;
  pci_dma_write = λ events addr bytes. 0;
  succeeds = λ n. true;
}

-- The setup of MSI-X fails after the capability was added.
abbrev unwilling : Qemu
unwilling = record willing { msix_init = λ calls. false }

has_msix-kept :
    (c : QemuCall) (calls : List QemuCall)
    → changes_msix c ≡ false
    → has_msix (c ∷ calls) ≡ has_msix calls
has_msix-kept c calls h = ground arith

has_msix-law : MsixLaw willing
has_msix-law = record { removed = λ calls. refl; kept = has_msix-kept }

unwilling-law : MsixLaw unwilling
unwilling-law = record { removed = λ calls. refl; kept = has_msix-kept }

abbrev fresh : XdnaNpuState
fresh = record {
  calls = [];
  heap = record { asked = 0; allocated = 0; freed = 0 };
  bar_reg_mr = record { opaque = 0; size = 0 };
  bar_sram_mr = record { opaque = 0; size = 0 };
  bar_mbox_mr = record { opaque = 0; size = 0 };
  bar_ctx = λ i. 0;
  emu = none;
  msix_initialized = false;
}

fresh-Released : (q : Qemu) → q.msix_present [] ≡ false → Released q fresh
fresh-Released q h = record { emu = refl; msix_initialized = refl; heap = omega arith; absent = h }

realize-Ready_or_Released_example :
    let t = xdna_npu_realize unwilling fresh in
    Released unwilling t ⊎ ((npu : XdnaNpu) × Ready t npu)
realize-Ready_or_Released_example =
    realize-Ready_or_Released unwilling unwilling-law fresh (fresh-Released unwilling refl)

abbrev core : XdnaNpu
core = xdna_npu_new (xdna_host_ops willing)

abbrev in_use : XdnaNpuState
in_use = record fresh {
  heap = record { asked = 2; allocated = 2; freed = 0 };
  bar_ctx = ctx_bars (λ i. 0);
  emu = some core;
  msix_initialized = true;
}

in_use-Ready : Ready in_use core
in_use-Ready = record {
  emu = refl;
  inv = new-Inv (xdna_host_ops willing);
  msix_initialized = refl;
  heap = omega arith;
}

-- A read of a register, a PSP kick and a reset.
abbrev actions : List GuestAction
actions = load 0 reg_scratch2 4 ∷ put 0 reg_pub_sec_intr psp_notify_val 4 ∷ device_reset ∷ []

guest_runs_then-Released_example :
    (s' : XdnaNpuState) × (npu' : XdnaNpu) × (guest_run willing actions in_use ≡ some s')
    × (s'.emu ≡ some npu')
    × Inv npu'
    × Released willing (xdna_npu_exit s')
    × (line (xdna_npu_exit s').calls ≡ 0)
guest_runs_then-Released_example =
    guest_runs_then-Released willing has_msix-law actions in_use core in_use-Ready

enabled : (calls : List QemuCall) → willing.msix_enabled calls ≡ true
enabled calls = refl

-- The firmware runs, and a query for the protocol version is in the ring of channel 0.
abbrev queued : XdnaNpu
queued =
    store sram_mgmt_x2i_off
      (u32_bytes 4 ++ u32_bytes 0x10004 ++ u32_bytes 7 ++ u32_bytes 0x301 ++ u32_bytes 0) ready

abbrev asking : XdnaNpuState
asking = record in_use { emu = some queued }

asking-Ready : Ready asking queued
asking-Ready = record {
  emu = refl;
  inv = store-Inv _ _ ready ready-Safe.0;
  msix_initialized = refl;
  heap = omega arith;
}

bar_write_notifies_example :
    (s' : XdnaNpuState) × (npu' : XdnaNpu) × (xdna_bar_write willing 2 mbox_x2i_tail_off 20 4 asking
      ≡ some s')
    × Ready s' npu'
    × (notified 0 s'.calls + raised 0 queued.host ≡ notified 0 asking.calls + raised 0 npu'.host)
bar_write_notifies_example =
    bar_write_notifies willing enabled 0 2 mbox_x2i_tail_off 20 4 asking queued asking-Ready

-- The device that `willing` lets succeed.
abbrev realized_here : XdnaNpuState
realized_here = xdna_npu_realize willing fresh

realized_core : realized_here.emu ≡ some core
unfolding xdna_npu_realize new_emu alloc_npu calloc realize_bars register_bars realize_cap
    use_vectors
realized_core = refl

realize_routes_bars_example :
    (mr : MemoryRegion) × (region_of realized_here.calls bar_sram ≡ some mr)
    × (mr.size ≡ xdna_npu_bar_size bar_sram)
    × ((addr size : ℕ)
        → let r = xdna_npu_mmio_read bar_sram (addr % 2 ^ 32) size core in
          xdna_bar_read willing mr.opaque addr size realized_here
          ≡ some (r.0, put_back willing core r.1 realized_here))
    × ((addr val size : ℕ)
        → xdna_bar_write willing mr.opaque addr val size realized_here
          ≡ some (
              put_back willing core
                (xdna_npu_mmio_write bar_sram (addr % 2 ^ 32) val size core)
                realized_here))
realize_routes_bars_example =
    realize_routes_bars willing bar_sram (λ e. absurd (omega arith)) fresh core realized_core

msix_hides_no_register_example :
    (0x40010 < bar_reg_size)
    × (msix_table_offset + msix_table_size ≤ msix_pba_offset)
    × (reg_bar_read 0x40010 core ≡ (0, xdna_log log_debug core))
    × (reg_bar_write 0x40010 7 core ≡ xdna_log log_debug core)
msix_hides_no_register_example =
    msix_hides_no_register 0x40010 7 core (inl (omega arith, omega arith))

-- A guest without MSI-X, whose line is high, acknowledges the interrupt of channel 0.
abbrev raised_line : XdnaNpuState
raised_line = record in_use { calls = set_irq 1 ∷ [] }

abbrev acknowledgement : List GuestAction
acknowledgement = put 2 mbox_intr_off 0 4 ∷ []

acknowledged : (s : XdnaNpuState) × (guest_run willing acknowledgement raised_line ≡ some s)
unfolding guest_run act xdna_bar_write
acknowledged = (_, refl)

accesses_never_lower_example : line acknowledged.0.calls ≡ 1
accesses_never_lower_example =
    accesses_never_lower willing acknowledgement raised_line acknowledged.0 tt acknowledged.1 refl
