-- ===== src/Device/Alloc.antt =====
-- src/xdna_device.c: the allocations of `xdna_npu_new`, and `xdna_npu_free`.
use xdna1_npu_emulator.Prelude.{ℕ, ◌+◌, Bool, not, Option, none, some, if◌then◌else◌}
use xdna1_npu_emulator.State.{XdnaHostOps, XdnaNpu}
use xdna1_npu_emulator.Device.{xdna_npu_new}

-- The C heap: how often `calloc` was called, how many blocks it gave, and how many were freed.
pub record Heap : Type 0 where
  pub asked : ℕ
  pub allocated : ℕ
  pub freed : ℕ

-- Whether the call succeeds is up to the platform.
unfoldable pub calloc : (ℕ → Bool) → Heap → Bool × Heap
calloc succeeds h = (
  succeeds h.asked,
  record h {
    asked = h.asked + 1;
    allocated = if succeeds h.asked then h.allocated + 1 else h.allocated;
  },
)

abbrev pub free : Heap → Heap
free h = record h { freed = h.freed + 1 }

-- `xdna_npu_new` with its two allocations; `none` stands for NULL.
unfoldable pub alloc_npu : (ℕ → Bool) → XdnaHostOps → Heap → Option XdnaNpu × Heap
alloc_npu succeeds ops h =
    let npu = calloc succeeds h in
    let sram = calloc succeeds npu.1 in
    if not npu.0
    then (none, npu.1)
    else if not sram.0
    then (none, free sram.1)
    else (some (xdna_npu_new ops), sram.1)

-- The SRAM and the struct.
unfoldable pub xdna_npu_free : Option XdnaNpu → Heap → Heap
xdna_npu_free none h = h
xdna_npu_free (some npu) h = free (free h)
