-- ===== src/Qemu/Callbacks.antt =====
-- qemu/hw/misc/xdna_npu.c: the callbacks that the core makes, and the accesses to the BARs, during
-- which it makes them.
use xdna1_npu_emulator.Prelude.{
  ℕ, zero, suc, ◌-◌, ◌%◌, ◌^◌, Bool, true, Option, none, some, List, [], ◌∷◌, leb, ◌==◌,
  if◌then◌else◌, length,
}
use xdna1_npu_emulator.State.{
  HostEvent, logged, irq, read_phys, read, write, XdnaHostOps, XdnaNpu, log_warn,
}
use xdna1_npu_emulator.Device.{xdna_npu_mmio_read, xdna_npu_mmio_write}
use xdna1_npu_emulator.Qemu.{
  msix_vectors, guest_error, trace, QemuCall, notify_msix, set_irq, log_mask, Qemu, XdnaNpuState,
}

-- `MEMTX_OK`
abbrev pub memtx_ok : ℕ
memtx_ok = 0

-- Each DMA callback returns 0 exactly if QEMU's function returns `MEMTX_OK`.
abbrev pub xdna_host_dma_read : Qemu → List HostEvent → ℕ → ℕ → Bool
xdna_host_dma_read q before addr len = q.pci_dma_read before addr len == memtx_ok

abbrev pub xdna_host_dma_read_phys : Qemu → List HostEvent → ℕ → ℕ → Bool
xdna_host_dma_read_phys q before addr len = q.dma_memory_read before addr len == memtx_ok

abbrev pub xdna_host_dma_write : Qemu → List HostEvent → ℕ → List ℕ → Bool
xdna_host_dma_write q before addr bytes = q.pci_dma_write before addr bytes == memtx_ok

unfoldable pub xdna_host_raise_irq : Qemu → ℕ → List QemuCall → List QemuCall
xdna_host_raise_irq q vector calls =
    if leb msix_vectors vector
    then calls
    else if q.msix_enabled calls
    then notify_msix vector ∷ calls
    else set_irq 1 ∷ calls

unfoldable pub xdna_host_log : ℕ → List QemuCall → List QemuCall
xdna_host_log level calls =
    if leb level log_warn then log_mask guest_error ∷ calls else log_mask trace ∷ calls

abbrev pub xdna_host_ops : Qemu → XdnaHostOps
xdna_host_ops q = record {
  dma_read = some (xdna_host_dma_read q);
  dma_read_phys = some (xdna_host_dma_read_phys q);
  dma_write = some (xdna_host_dma_write q);
  raise_irq = true;
  log = true;
}

-- A DMA callback that fails reports an error of the guest.
abbrev pub report : Bool → List QemuCall → List QemuCall
report done calls = if done then calls else log_mask guest_error ∷ calls

-- What one callback asks of QEMU, after the callbacks `before`.
unfoldable pub callback : Qemu → HostEvent → List HostEvent → List QemuCall → List QemuCall
callback q (logged level) before calls = xdna_host_log level calls
callback q (irq vector) before calls = xdna_host_raise_irq q vector calls
callback q (read_phys addr len) before calls =
    report (xdna_host_dma_read_phys q before addr len) calls
callback q (read addr len) before calls = report (xdna_host_dma_read q before addr len) calls
callback q (write addr bytes) before calls = report (xdna_host_dma_write q before addr bytes) calls

-- The newest `n` callbacks, oldest first.
unfoldable pub callbacks : Qemu → ℕ → List HostEvent → List QemuCall → List QemuCall
callbacks q zero events calls = calls
callbacks q (suc n) [] calls = calls
callbacks q (suc n) (e ∷ before) calls = callback q e before (callbacks q n before calls)

-- The core has gone from one state to another, and its callbacks were made.
unfoldable pub put_back : Qemu → XdnaNpu → XdnaNpu → XdnaNpuState → XdnaNpuState
put_back q old npu s = record s {
  emu = some npu;
  calls = callbacks q (length npu.host - length old.host) npu.host s.calls;
}

-- An access through the region with the opaque value `bar_ctx[ctx]`; `none` stands for a NULL
-- pointer that is followed.
unfoldable pub xdna_bar_read : Qemu → ℕ → ℕ → ℕ → XdnaNpuState → Option (ℕ × XdnaNpuState)
xdna_bar_read q ctx addr size s = elim s.emu [
  | none ↦ none
  | some npu ↦
      let r = xdna_npu_mmio_read (s.bar_ctx ctx) (addr % 2 ^ 32) size npu in
      some (r.0, put_back q npu r.1 s)
]

unfoldable pub xdna_bar_write : Qemu → ℕ → ℕ → ℕ → ℕ → XdnaNpuState → Option XdnaNpuState
xdna_bar_write q ctx addr val size s = elim s.emu [
  | none ↦ none
  | some npu ↦
      some (put_back q npu (xdna_npu_mmio_write (s.bar_ctx ctx) (addr % 2 ^ 32) val size npu) s)
]
