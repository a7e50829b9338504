-- ===== src/Device.antt =====
-- src/xdna_device.c: reset, the register BAR, and the MMIO entry points.
pub mod Kept
pub mod Readback
pub mod Alloc
use xdna1_npu_emulator.Prelude.{
  ℕ, zero, suc, ◌+◌, Bool, false, List, [], ◌∷◌, ◌++◌, ltb, ◌==◌, if◌then◌else◌, length, replicate,
  add32, le_bytes, le_value, u32_bytes,
}
use xdna1_npu_emulator.Regs.{
  bar_reg, bar_sram, bar_mbox, bar_reg_size, bar_sram_size, bar_mbox_size, reg_pwaitmode,
  reg_pub_sec_intr, reg_pub_pwrmgmt_ir, reg_scratch2, reg_scratch3, reg_scratch4, reg_scratch5,
  reg_scratch6, reg_scratch7, reg_scratch9, psp_status_ready, psp_notify_val,
}
use xdna1_npu_emulator.Mem.{read_bytes}
use xdna1_npu_emulator.State.{
  HostEvent, XdnaHostOps, XdnaStats, XdnaContext, cold, XdnaNpu, update, log_debug, xdna_log, touch,
  store,
}
use xdna1_npu_emulator.Mailbox.Channel.{channel_zero, xdna_mbox_reset, xdna_mbox_reg_read}
use xdna1_npu_emulator.Mailbox.{xdna_mbox_reg_write}
use xdna1_npu_emulator.Psp.{xdna_psp_kick}
use xdna1_npu_emulator.Smu.{xdna_smu_kick}

abbrev pub xdna_npu_bar_size : ℕ → ℕ
xdna_npu_bar_size bar =
    if bar == bar_reg
    then bar_reg_size
    else if bar == bar_sram
    then bar_sram_size
    else if bar == bar_mbox
    then bar_mbox_size
    else 0

abbrev pub stats_zero : XdnaStats
stats_zero = record {
  psp_cmds = 0;
  smu_cmds = 0;
  mbox_msgs_in = 0;
  mbox_msgs_out = 0;
  irqs_raised = 0;
  active_contexts = 0;
  fw_alive = 0;
  power_on = 0;
}

abbrev pub context_zero : XdnaContext
context_zero = record {
  valid = false;
  id = 0;
  pasid = 0;
  start_col = 0;
  num_col = 0;
  priority = 0;
  chan = 0;
  heap_addr = 0;
  heap_size = 0;
}

-- The struct and the SRAM filled with zeros, with the callbacks and the host put back.
abbrev pub npu_zero : XdnaHostOps → List HostEvent → XdnaNpu
npu_zero ops host = record {
  ops = ops;
  host = host;
  fault = false;
  scratch = λ i. 0;
  pwaitmode = 0;
  sec_intr = 0;
  pwrmgmt_intr = 0;
  sram = λ a. 0;
  chan = λ i. channel_zero;
  psp_state = cold;
  power_on = false;
  fw_alive = false;
  fw_suspended = false;
  fw_paddr = 0;
  fw_size = 0;
  npuclk = 0;
  hclk = 0;
  dpm_level = 0;
  mgmt_pasid = 0;
  rt_cfg = λ i. 0;
  ctx = λ i. context_zero;
  next_ctx_id = 0;
  col_used = 0;
  async_buf_addr = 0;
  async_buf_size = 0;
  async_registered = false;
  stats = stats_zero;
}

-- A fault that has happened is not undone by a reset.
unfoldable pub xdna_npu_reset : XdnaNpu → XdnaNpu
xdna_npu_reset s = xdna_mbox_reset (record (npu_zero s.ops s.host) {
  fault = s.fault;
  next_ctx_id = 1;
  scratch = update (λ i. 0) 2 psp_status_ready;
})

-- `xdna_npu_new`, where both allocations succeed.
unfoldable pub xdna_npu_new : XdnaHostOps → XdnaNpu
xdna_npu_new ops = xdna_npu_reset (npu_zero ops [])

abbrev flag : Bool → ℕ
flag b = if b then 1 else 0

abbrev pub xdna_npu_get_stats : XdnaNpu → XdnaStats
xdna_npu_get_stats s = record s.stats { fw_alive = flag s.fw_alive; power_on = flag s.power_on }

unfoldable pub reg_bar_read : ℕ → XdnaNpu → ℕ × XdnaNpu
reg_bar_read off s =
    if off == reg_pwaitmode
    then (s.pwaitmode, s)
    else if off == reg_pub_sec_intr
    then (s.sec_intr, s)
    else if off == reg_pub_pwrmgmt_ir
    then (s.pwrmgmt_intr, s)
    else if off == reg_scratch2
    then (s.scratch 2, s)
    else if off == reg_scratch3
    then (s.scratch 3, s)
    else if off == reg_scratch4
    then (s.scratch 4, s)
    else if off == reg_scratch5
    then (s.scratch 5, s)
    else if off == reg_scratch6
    then (s.scratch 6, s)
    else if off == reg_scratch7
    then (s.scratch 7, s)
    else if off == reg_scratch9
    then (s.scratch 9, s)
    else (0, xdna_log log_debug s)

abbrev set_scratch : ℕ → ℕ → XdnaNpu → XdnaNpu
set_scratch i val s = record s { scratch = update s.scratch i val }

unfoldable pub reg_bar_write : ℕ → ℕ → XdnaNpu → XdnaNpu
reg_bar_write off val s =
    if off == reg_pwaitmode
    then record s { pwaitmode = val }
    else if off == reg_pub_sec_intr
    then (let s' : XdnaNpu = record s { sec_intr = val } in
        if val == psp_notify_val then xdna_psp_kick s' else s')
    else if off == reg_pub_pwrmgmt_ir
    then (let s' : XdnaNpu = record s { pwrmgmt_intr = val } in
        if val == 1 then xdna_smu_kick s' else s')
    else if off == reg_scratch2
    then set_scratch 2 val s
    else if off == reg_scratch3
    then set_scratch 3 val s
    else if off == reg_scratch4
    then set_scratch 4 val s
    else if off == reg_scratch5
    then set_scratch 5 val s
    else if off == reg_scratch6
    then set_scratch 6 val s
    else if off == reg_scratch7
    then set_scratch 7 val s
    else if off == reg_scratch9
    then set_scratch 9 val s
    else xdna_log log_debug s

-- A 32-bit read of a BAR other than SRAM.
unfoldable pub word_read : ℕ → ℕ → XdnaNpu → ℕ × XdnaNpu
word_read bar off s =
    if bar == bar_reg
    then reg_bar_read off s
    else if bar == bar_mbox
    then (xdna_mbox_reg_read off s, s)
    else (0, s)

unfoldable pub word_write : ℕ → ℕ → ℕ → XdnaNpu → XdnaNpu
word_write bar off val s =
    if bar == bar_reg
    then reg_bar_write off val s
    else if bar == bar_mbox
    then xdna_mbox_reg_write off val s
    else s

-- The read loop: `len` bytes from `off` on, a word at a time, the last one cut off.
unfoldable pub read_words : ℕ → ℕ → ℕ → XdnaNpu → List ℕ × XdnaNpu
read_words bar off (suc (suc (suc (suc n)))) s =
    let (v, s') = word_read bar off s in
    let (bs, s'') = read_words bar (add32 off 4) n s' in (u32_bytes v ++ bs, s'')
read_words bar off zero s = ([], s)
read_words bar off n s = let (v, s') = word_read bar off s in (le_bytes n v, s')

unfoldable pub xdna_npu_mmio_read_buf : ℕ → ℕ → ℕ → XdnaNpu → List ℕ × XdnaNpu
xdna_npu_mmio_read_buf bar off len s =
    if bar == bar_sram
    then (if ltb bar_sram_size (off + len)
        then (replicate len 0, s)
        else (read_bytes s.sram off len, touch off len s))
    else read_words bar off len s

-- The write loop: a word at a time, the last one filled up with zeros.
unfoldable pub write_words : ℕ → ℕ → List ℕ → XdnaNpu → XdnaNpu
write_words bar off (a ∷ b ∷ c ∷ d ∷ bs) s =
    write_words bar (add32 off 4) bs (word_write bar off (le_value (a ∷ b ∷ c ∷ d ∷ [])) s)
write_words bar off [] s = s
write_words bar off bs s = word_write bar off (le_value bs) s

unfoldable pub xdna_npu_mmio_write_buf : ℕ → ℕ → List ℕ → XdnaNpu → XdnaNpu
xdna_npu_mmio_write_buf bar off bs s =
    if bar == bar_sram
    then (if ltb bar_sram_size (off + length bs) then s else store off bs s)
    else write_words bar off bs s

abbrev access_len : ℕ → ℕ
access_len len = if ltb 8 len then 8 else len

unfoldable pub xdna_npu_mmio_read : ℕ → ℕ → ℕ → XdnaNpu → ℕ × XdnaNpu
xdna_npu_mmio_read bar off len s =
    let (bs, s') = xdna_npu_mmio_read_buf bar off (access_len len) s in (le_value bs, s')

unfoldable pub xdna_npu_mmio_write : ℕ → ℕ → ℕ → ℕ → XdnaNpu → XdnaNpu
xdna_npu_mmio_write bar off val len s =
    xdna_npu_mmio_write_buf bar off (le_bytes (access_len len) val) s
