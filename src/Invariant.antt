-- ===== src/Invariant.antt =====
-- The invariants of the device state, as predicates on the parts of the state that they read, so
-- that a change of any other part keeps them by definition.
pub mod Basic
pub mod Rings
pub mod Send
pub mod SendSafe
pub mod Assign
pub mod Contexts
pub mod Mert
pub mod Process
pub mod ProcessSafe
pub mod Reset
pub mod Power
pub mod Commands
pub mod Access
pub mod Events
pub mod Reach
use xdna1_npu_emulator.Prelude.{
  ℕ, zero, suc, ◌+◌, ◌-◌, ◌*◌, ◌≤◌, ◌<◌, ◌≡◌, Bool, true, false, ◌==◌, if◌then◌else◌,
}
use xdna1_npu_emulator.Regs.{
  npu1_max_dpm_level, sram_mgmt_x2i_off, sram_mgmt_rb_size, sram_ctx_rb_base, sram_ctx_rb_size,
  sram_ctx_rb_stride, npu1_hwctx_limit,
}
use xdna1_npu_emulator.State.{
  XdnaChannel, XdnaContext, XdnaPspState, running, XdnaNpu, max_channels,
}

-- Where the rings of a channel lie: those of channel 0 behind the management description, those of
-- channel `i` in slot `i - 1` of the context area.
abbrev pub ring_base : ℕ → ℕ
ring_base i = if i == 0 then sram_mgmt_x2i_off else sram_ctx_rb_base + (i - 1) * sram_ctx_rb_stride

abbrev pub ring_size : ℕ → ℕ
ring_size i = if i == 0 then sram_mgmt_rb_size else sram_ctx_rb_size

-- The channel has the rings of its index: `x2i`, and `i2x` right behind it.
pub record RingAt (i : ℕ) (c : XdnaChannel) : Type 0 where
  pub x2i_buf : c.x2i_buf ≡ ring_base i
  pub x2i_size : c.x2i_size ≡ ring_size i
  pub i2x_buf : c.i2x_buf ≡ ring_base i + ring_size i
  pub i2x_size : c.i2x_size ≡ ring_size i

-- The number of valid contexts among the first `n` slots.
abbrev pub count_valid : (ℕ → XdnaContext) → ℕ → ℕ
count_valid ctx zero = 0
count_valid ctx (suc n) = (if (ctx n).valid then 1 else 0) + count_valid ctx n

-- What holds of a device whatever its driver does.
pub record WellFormed (chan : ℕ → XdnaChannel) (ctx : ℕ → XdnaContext) (alive : Bool)
    (psp : XdnaPspState) (contexts dpm : ℕ) : Type 0 where
  pub index : (i : ℕ) → i < max_channels → (chan i).index ≡ i
  pub rings : (i : ℕ) → i < max_channels → (chan i).active ≡ true → RingAt i (chan i)
  pub closed : (i : ℕ) → i < max_channels → (chan i).active ≡ false → (chan i).x2i_size ≡ 0
  pub mgmt : (chan 0).active ≡ alive
  pub slots : (k : ℕ) → k < npu1_hwctx_limit → (chan (suc k)).active ≡ (ctx k).valid
  pub ctx_chan : (k : ℕ) → k < npu1_hwctx_limit → (ctx k).valid ≡ true → (ctx k).chan ≡ suc k
  pub runs : psp ≡ running → alive ≡ true
  pub counted : contexts ≡ count_valid ctx npu1_hwctx_limit
  pub dpm_range : dpm ≤ npu1_max_dpm_level

abbrev pub Inv : XdnaNpu → Type 0
Inv s = WellFormed s.chan s.ctx s.fw_alive s.psp_state s.stats.active_contexts s.dpm_level

-- An outgoing ring whose two positions leave the last word free.
abbrev pub InRing : ℕ → XdnaChannel → Type 0
InRing i c = (c.i2x_head + 4 ≤ ring_size i) × (c.i2x_tail + 4 ≤ ring_size i)

-- No access has left the SRAM, and the outgoing rings are in order.
pub record RingsSafe (chan : ℕ → XdnaChannel) (fault : Bool) : Type 0 where
  pub no_fault : fault ≡ false
  pub in_ring : (i : ℕ) → i < max_channels → (chan i).active ≡ true → InRing i (chan i)

-- What holds while the driver keeps its read positions inside the rings.
abbrev pub Safe : XdnaNpu → Type 0
Safe s = Inv s × RingsSafe s.chan s.fault
