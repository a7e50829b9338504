-- ===== src/State.antt =====
-- src/xdna_internal.h and include/xdna/xdna_emu.h: the device state, the host callbacks, logging,
-- and the accesses to SRAM. Arrays of fixed size are functions of the index.
use xdna1_npu_emulator.Prelude.{
  ℕ, ◌+◌, Bool, true, Option, List, ◌∷◌, ltb, leb, ◌==◌, if◌then◌else◌, length, add32, le_value,
  u32_bytes,
}
use xdna1_npu_emulator.Regs.{
  mpnpu_aperture1_base, mpnpu_aperture2_base, bar_sram_size, npu1_hwctx_limit,
}
use xdna1_npu_emulator.Mem.{Mem, read_bytes, write_bytes, fill_bytes}

-- What the device asks of its host through `XdnaHostOps`, newest first in `XdnaNpu.host`.
pub data HostEvent : Type 0 where
  logged : ℕ → HostEvent
  irq : ℕ → HostEvent
  read_phys : ℕ → ℕ → HostEvent
  read : ℕ → ℕ → HostEvent
  write : ℕ → List ℕ → HostEvent

-- `XdnaHostOps`. A callback may be NULL (`none`, `false`). The device sees only whether a DMA call
-- returned 0 (`true`), which may depend on all that was asked of the host before; `write` takes the
-- address and the bytes, the reads the address and the length.
pub record XdnaHostOps : Type 0 where
  pub dma_read : Option (List HostEvent → ℕ → ℕ → Bool)
  pub dma_read_phys : Option (List HostEvent → ℕ → ℕ → Bool)
  pub dma_write : Option (List HostEvent → ℕ → List ℕ → Bool)
  pub raise_irq : Bool
  pub log : Bool

pub record XdnaStats : Type 0 where
  pub psp_cmds : ℕ
  pub smu_cmds : ℕ
  pub mbox_msgs_in : ℕ
  pub mbox_msgs_out : ℕ
  pub irqs_raised : ℕ
  pub active_contexts : ℕ
  pub fw_alive : ℕ
  pub power_on : ℕ

pub record XdnaMsgHeader : Type 0 where
  pub total_size : ℕ
  pub sz_ver : ℕ
  pub id : ℕ
  pub opcode : ℕ

pub record XdnaChannel : Type 0 where
  pub active : Bool
  pub index : ℕ
  pub x2i_head : ℕ
  pub x2i_tail : ℕ
  pub i2x_head : ℕ
  pub i2x_tail : ℕ
  pub intr : ℕ
  pub x2i_buf : ℕ
  pub x2i_size : ℕ
  pub i2x_buf : ℕ
  pub i2x_size : ℕ

pub record XdnaContext : Type 0 where
  pub valid : Bool
  pub id : ℕ
  pub pasid : ℕ
  pub start_col : ℕ
  pub num_col : ℕ
  pub priority : ℕ
  pub chan : ℕ
  pub heap_addr : ℕ
  pub heap_size : ℕ

pub data XdnaPspState : Type 0 where
  cold validated running : XdnaPspState

-- `struct XdnaNpu`. `host` stands for `opaque`: what was asked of the host so far. `fault` is set by
-- a `memcpy` or `memset` that leaves the SRAM allocation, which is undefined behaviour in C.
pub record XdnaNpu : Type 0 where
  pub ops : XdnaHostOps
  pub host : List HostEvent
  pub fault : Bool
  pub scratch : ℕ → ℕ
  pub pwaitmode : ℕ
  pub sec_intr : ℕ
  pub pwrmgmt_intr : ℕ
  pub sram : Mem
  pub chan : ℕ → XdnaChannel
  pub psp_state : XdnaPspState
  pub power_on : Bool
  pub fw_alive : Bool
  pub fw_suspended : Bool
  pub fw_paddr : ℕ
  pub fw_size : ℕ
  pub npuclk : ℕ
  pub hclk : ℕ
  pub dpm_level : ℕ
  pub mgmt_pasid : ℕ
  pub rt_cfg : ℕ → ℕ
  pub ctx : ℕ → XdnaContext
  pub next_ctx_id : ℕ
  pub col_used : ℕ
  pub async_buf_addr : ℕ
  pub async_buf_size : ℕ
  pub async_registered : Bool
  pub stats : XdnaStats

-- `XDNA_MAX_CHANNELS`: the management channel and one for each context.
abbrev pub max_channels : ℕ
max_channels = 1 + npu1_hwctx_limit

-- An assignment to one element of an array.
abbrev pub update {ℓ} : {A : Type ℓ} → (ℕ → A) → ℕ → A → ℕ → A
update f i v j = if j == i then v else f j

-- Log levels of `xdna_emu.h`.
abbrev pub log_error : ℕ
log_error = 0

abbrev pub log_warn : ℕ
log_warn = 1

abbrev pub log_info : ℕ
log_info = 2

abbrev pub log_debug : ℕ
log_debug = 3

abbrev pub emit : HostEvent → XdnaNpu → XdnaNpu
emit e s = record s { host = e ∷ s.host }

-- The message text is not modelled.
unfoldable pub xdna_log : ℕ → XdnaNpu → XdnaNpu
xdna_log level s = if s.ops.log then emit (logged level) s else s

-- The bytes `[off, off + len)` lie in the SRAM allocation.
abbrev pub in_sram : ℕ → ℕ → Bool
in_sram off len = leb (off + len) bar_sram_size

-- A read of `len` bytes from `sram + off`: the state it leaves, and the bytes.
unfoldable pub touch : ℕ → ℕ → XdnaNpu → XdnaNpu
touch off len s = if in_sram off len then s else record s { fault = true }

-- `memcpy(sram + off, bytes, length bytes)`
unfoldable pub store : ℕ → List ℕ → XdnaNpu → XdnaNpu
store off bs s =
    if in_sram off (length bs)
    then record s { sram = write_bytes s.sram off bs }
    else record s { fault = true }

-- `memset(sram + off, 0, len)`
unfoldable pub clear : ℕ → ℕ → XdnaNpu → XdnaNpu
clear off len s =
    if in_sram off len
    then record s { sram = fill_bytes s.sram off 0 len }
    else record s { fault = true }

-- The bound is tested in 32 bits, so an offset from 2 ^ 32 - 4 on passes it.
unfoldable pub xdna_sram_read32 : ℕ → XdnaNpu → ℕ × XdnaNpu
xdna_sram_read32 off s =
    if ltb bar_sram_size (add32 off 4)
    then (0, s)
    else (le_value (read_bytes s.sram off 4), touch off 4 s)

unfoldable pub xdna_sram_write32 : ℕ → ℕ → XdnaNpu → XdnaNpu
xdna_sram_write32 off v s = if ltb bar_sram_size (add32 off 4) then s else store off (u32_bytes v) s

abbrev pub xdna_sram_dev_addr : ℕ → ℕ
xdna_sram_dev_addr off = add32 mpnpu_aperture1_base off

abbrev pub xdna_mbox_dev_addr : ℕ → ℕ
xdna_mbox_dev_addr off = add32 mpnpu_aperture2_base off
