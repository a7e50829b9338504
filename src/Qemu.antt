-- ===== src/Qemu.antt =====
-- qemu/hw/misc/xdna_npu.c: the PCI device of QEMU around the core. The calls of QEMU's own functions
-- are recorded, newest first; what QEMU answers is a parameter.
pub mod Callbacks
pub mod Lifecycle
pub mod Realize
pub mod Interrupts
pub mod Guest
pub mod Bars
pub mod Line
use xdna1_npu_emulator.Prelude.{ℕ, Bool, Option, List, ◌∷◌}
use xdna1_npu_emulator.State.{HostEvent, XdnaNpu}
use xdna1_npu_emulator.Device.Alloc.{Heap}

-- `XDNA_MSIX_VECTORS`
abbrev pub msix_vectors : ℕ
msix_vectors = 8

abbrev pub msix_table_offset : ℕ
msix_table_offset = 0x40000

abbrev pub msix_pba_offset : ℕ
msix_pba_offset = 0x50000

abbrev pub ats_cap_offset : ℕ
ats_cap_offset = 0x100

abbrev pub pasid_cap_offset : ℕ
pasid_cap_offset = 0x110

abbrev pub pri_cap_offset : ℕ
pri_cap_offset = 0x120

-- A region set up by `memory_region_init_io`: the index of its opaque value in `bar_ctx`, and its
-- size.
pub record MemoryRegion : Type 0 where
  pub opaque : ℕ
  pub size : ℕ

-- `LOG_GUEST_ERROR` and `LOG_TRACE`
pub data LogMask : Type 0 where
  guest_error trace : LogMask

-- The calls of QEMU. The last argument of `register_bar` says whether the BAR is a 64-bit one.
pub data QemuCall : Type 0 where
  config_interrupt_pin : ℕ → QemuCall
  register_bar : ℕ → MemoryRegion → Bool → QemuCall
  init_msix : ℕ → ℕ → ℕ → ℕ → ℕ → QemuCall
  uninit_msix : QemuCall
  reset_msix : QemuCall
  use_vector : ℕ → QemuCall
  notify_msix : ℕ → QemuCall
  set_irq : ℕ → QemuCall
  init_endpoint_cap : ℕ → QemuCall
  init_ats : ℕ → Bool → QemuCall
  init_pasid : ℕ → ℕ → Bool → Bool → QemuCall
  init_pri : ℕ → ℕ → Bool → QemuCall
  set_error : QemuCall
  log_mask : LogMask → QemuCall

-- What QEMU and the C library answer. `msix_init` and `pcie_endpoint_cap_init` succeed on `true`;
-- the memory functions give a `MemTxResult`.
pub record Qemu : Type 0 where
  pub msix_enabled : List QemuCall → Bool
  pub msix_present : List QemuCall → Bool
  pub msix_init : List QemuCall → Bool
  pub pcie_endpoint_cap_init : List QemuCall → Bool
  pub pci_dma_read : List HostEvent → ℕ → ℕ → ℕ
  pub dma_memory_read : List HostEvent → ℕ → ℕ → ℕ
  pub pci_dma_write : List HostEvent → ℕ → List ℕ → ℕ
  pub succeeds : ℕ → Bool

-- `struct XdnaNpuState`. `calls` stands for the PCI device, and `bar_ctx` holds the `bar` of each
-- `XdnaBarCtx`, whose `s` is the device itself.
pub record XdnaNpuState : Type 0 where
  pub calls : List QemuCall
  pub heap : Heap
  pub bar_reg_mr : MemoryRegion
  pub bar_sram_mr : MemoryRegion
  pub bar_mbox_mr : MemoryRegion
  pub bar_ctx : ℕ → ℕ
  pub emu : Option XdnaNpu
  pub msix_initialized : Bool

abbrev pub call : QemuCall → XdnaNpuState → XdnaNpuState
call c s = record s { calls = c ∷ s.calls }
