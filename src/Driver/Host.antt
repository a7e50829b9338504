-- ===== src/Driver/Host.antt =====
-- tests/test_boot.c: the host of the test. Of its memory, only the range is modelled, since the device
-- looks at none of the bytes that it reads.
use xdna1_npu_emulator.Prelude.{
  ℕ, ◌+◌, ◌*◌, Bool, true, not, ◌||◌, none, some, List, ltb, length, add64,
}
use xdna1_npu_emulator.State.{HostEvent, XdnaHostOps}

-- `HOST_MEM_BASE` and `HOST_MEM_SIZE`
abbrev pub host_mem_base : ℕ
host_mem_base = 0x100000000

abbrev pub host_mem_size : ℕ
host_mem_size = 8 * 1024 * 1024

-- The test of both callbacks: `true` for an access that leaves the memory.
abbrev pub leaves_memory : ℕ → ℕ → Bool
leaves_memory addr len =
    ltb addr host_mem_base || ltb (host_mem_base + host_mem_size) (add64 addr len)

-- `true` stands for the return value 0, `false` for -1.
abbrev pub host_dma_read : List HostEvent → ℕ → ℕ → Bool
host_dma_read events addr len = not (leaves_memory addr len)

abbrev pub host_dma_write : List HostEvent → ℕ → List ℕ → Bool
host_dma_write events addr bs = not (leaves_memory addr (length bs))

abbrev pub host_ops : XdnaHostOps
host_ops = record {
  dma_read = some host_dma_read;
  dma_read_phys = none;
  dma_write = some host_dma_write;
  raise_irq = true;
  log = true;
}
