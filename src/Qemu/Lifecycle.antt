-- ===== src/Qemu/Lifecycle.antt =====
-- qemu/hw/misc/xdna_npu.c: reset, realize and exit of the PCI device, and its class.
use xdna1_npu_emulator.Prelude.{ℕ, zero, suc, true, false, none, some, if◌then◌else◌}
use xdna1_npu_emulator.Regs.{
  bar_reg, bar_sram, bar_mbox, bar_reg_size, bar_sram_size, bar_mbox_size,
}
use xdna1_npu_emulator.State.{update}
use xdna1_npu_emulator.Device.{xdna_npu_reset}
use xdna1_npu_emulator.Device.Alloc.{alloc_npu, xdna_npu_free}
use xdna1_npu_emulator.Qemu.{
  msix_vectors, msix_table_offset, msix_pba_offset, ats_cap_offset, pasid_cap_offset,
  pri_cap_offset, config_interrupt_pin, register_bar, init_msix, uninit_msix, reset_msix,
  use_vector, set_irq, init_endpoint_cap, init_ats, init_pasid, init_pri, set_error, Qemu,
  XdnaNpuState, call,
}
use xdna1_npu_emulator.Qemu.Callbacks.{xdna_host_ops, put_back}

-- The core is reset in its place.
unfoldable pub reset_emu : Qemu → XdnaNpuState → XdnaNpuState
reset_emu q s = elim s.emu [ none ↦ s | some npu ↦ put_back q npu (xdna_npu_reset npu) s ]

unfoldable pub xdna_npu_reset_hold : Qemu → XdnaNpuState → XdnaNpuState
xdna_npu_reset_hold q s =
    let s1 = reset_emu q s in
    let s2 = if s1.msix_initialized then call reset_msix s1 else s1 in call (set_irq 0) s2

-- `s->emu = xdna_npu_new(...)`
unfoldable pub new_emu : Qemu → XdnaNpuState → XdnaNpuState
new_emu q s =
    let r = alloc_npu q.succeeds (xdna_host_ops q) s.heap in record s { emu = r.0; heap = r.1 }

-- The opaque values and the regions.
abbrev pub ctx_bars : (ℕ → ℕ) → ℕ → ℕ
ctx_bars f = update (update (update f 0 bar_reg) 1 bar_sram) 2 bar_mbox

abbrev pub init_regions : XdnaNpuState → XdnaNpuState
init_regions s = record s {
  bar_ctx = ctx_bars s.bar_ctx;
  bar_reg_mr = record { opaque = 0; size = bar_reg_size };
  bar_sram_mr = record { opaque = 1; size = bar_sram_size };
  bar_mbox_mr = record { opaque = 2; size = bar_mbox_size };
}

unfoldable pub register_bars : XdnaNpuState → XdnaNpuState
register_bars s =
    let s1 = call (register_bar bar_reg s.bar_reg_mr true) s in
    let s2 = call (register_bar bar_sram s.bar_sram_mr true) s1 in
    call (register_bar bar_mbox s.bar_mbox_mr true) s2

-- `xdna_npu_free(s->emu); s->emu = NULL;`
abbrev pub free_emu : XdnaNpuState → XdnaNpuState
free_emu s = record s { emu = none; heap = xdna_npu_free s.emu s.heap }

-- `msix_init` has failed; it may have added the capability before.
unfoldable pub fail_msix : Qemu → XdnaNpuState → XdnaNpuState
fail_msix q s = free_emu (if q.msix_present s.calls then call uninit_msix s else s)

-- The loop over the vectors: `n` of them from `i` on.
unfoldable pub use_vectors : ℕ → ℕ → XdnaNpuState → XdnaNpuState
use_vectors i zero s = s
use_vectors i (suc n) s = use_vectors (suc i) n (call (use_vector i) s)

-- `pcie_endpoint_cap_init` has failed.
abbrev pub fail_cap : XdnaNpuState → XdnaNpuState
fail_cap s = free_emu (record (call uninit_msix (call set_error s)) { msix_initialized = false })

abbrev pub init_caps : XdnaNpuState → XdnaNpuState
init_caps s =
    let s1 = call (init_ats ats_cap_offset true) s in
    let s2 = call (init_pasid pasid_cap_offset 20 false false) s1 in
    call (init_pri pri_cap_offset 32 true) s2

-- What follows a successful `msix_init`.
unfoldable pub realize_cap : Qemu → XdnaNpuState → XdnaNpuState
realize_cap q s =
    let s1 = use_vectors 0 msix_vectors (record s { msix_initialized = true }) in
    let s2 = call (init_endpoint_cap 0) s1 in
    if q.pcie_endpoint_cap_init s1.calls then init_caps s2 else fail_cap s2

-- What follows the creation of the core.
unfoldable pub realize_bars : Qemu → XdnaNpuState → XdnaNpuState
realize_bars q s =
    let s1 = register_bars (init_regions s) in
    let s2 = call (init_msix msix_vectors bar_reg msix_table_offset bar_reg msix_pba_offset) s1 in
    if q.msix_init s1.calls then realize_cap q s2 else fail_msix q s2

-- An error is told to QEMU by `set_error`, but for that of `msix_init`, which tells it itself.
unfoldable pub xdna_npu_realize : Qemu → XdnaNpuState → XdnaNpuState
xdna_npu_realize q s =
    let s1 = new_emu q (call (config_interrupt_pin 1) s) in
    elim s1.emu [ none ↦ call set_error s1 | some npu ↦ realize_bars q s1 ]

unfoldable pub xdna_npu_exit : XdnaNpuState → XdnaNpuState
xdna_npu_exit s =
    let s1 =
      if s.msix_initialized then record (call uninit_msix s) { msix_initialized = false } else s in
    free_emu (call (set_irq 0) s1)
