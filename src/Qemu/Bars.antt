-- ===== src/Qemu/Bars.antt =====
-- The BARs of the PCI device: which regions a realized device registers, and where their accesses go.
use xdna1_npu_emulator.State.{XdnaNpu, log_debug, xdna_log}
use xdna1_npu_emulator.Qemu.Callbacks.{put_back, xdna_bar_read, xdna_bar_write}
use xdna1_npu_emulator.Prelude.{
  ℕ, ◌+◌, ◌*◌, ◌%◌, ◌^◌, ◌≤◌, ◌<◌, ◌≡◌, refl, sym, ◌∙◌, subst, ◌≢◌, ◌⊎◌, inl, inr, true, Option,
  none, some, List, [], ◌∷◌, arith, ◌==◌, if◌then◌else◌, ne→==, Option-cases, if_keeps,
}
use xdna1_npu_emulator.Regs.{
  bar_reg, bar_sram, bar_mbox, bar_reg_size, bar_sram_size, bar_mbox_size, reg_pwaitmode,
  reg_pub_sec_intr, reg_pub_pwrmgmt_ir, reg_scratch2, reg_scratch3, reg_scratch4, reg_scratch5,
  reg_scratch6, reg_scratch7, reg_scratch9,
}
use xdna1_npu_emulator.Device.{
  xdna_npu_bar_size, reg_bar_read, reg_bar_write, xdna_npu_mmio_read, xdna_npu_mmio_write,
}
use xdna1_npu_emulator.Qemu.{
  msix_vectors, msix_table_offset, msix_pba_offset, MemoryRegion, QemuCall, config_interrupt_pin,
  register_bar, init_msix, init_endpoint_cap, set_error, Qemu, XdnaNpuState, call,
}
use xdna1_npu_emulator.Qemu.Lifecycle.{
  new_emu, init_regions, register_bars, fail_msix, use_vectors, init_caps, realize_cap,
  realize_bars, xdna_npu_realize,
}

-- The region that was last registered as a BAR.
abbrev pub region_of : List QemuCall → ℕ → Option MemoryRegion
region_of [] b = none
region_of (register_bar bar mr is64 ∷ calls) b = if b == bar then some mr else region_of calls b
region_of (c ∷ calls) b = region_of calls b

-- The region of a BAR has the size that the core gives to it, and its opaque value names the BAR.
pub record Routed (calls : List QemuCall) (bar_ctx : ℕ → ℕ) (b : ℕ) : Type 0 where
  pub mr : MemoryRegion
  pub region : region_of calls b ≡ some mr
  pub size : mr.size ≡ xdna_npu_bar_size b
  pub bar : bar_ctx mr.opaque ≡ b

bar_cases : (b : ℕ) → xdna_npu_bar_size b ≢ 0 → (b ≡ bar_reg) ⊎ ((b ≡ bar_sram) ⊎ (b ≡ bar_mbox))
bar_cases b h = ground arith

-- The device after everything has succeeded.
abbrev realized : XdnaNpuState → XdnaNpuState
realized s =
    let s1 =
      call (init_msix msix_vectors bar_reg msix_table_offset bar_reg msix_pba_offset)
        (register_bars (init_regions s)) in
    init_caps (
      call (init_endpoint_cap 0)
        (use_vectors 0 msix_vectors (record s1 { msix_initialized = true })))

realized-Routed :
    (s : XdnaNpuState) (b : ℕ)
    → xdna_npu_bar_size b ≢ 0
    → Routed (realized s).calls (realized s).bar_ctx b
unfolding use_vectors register_bars
realized-Routed s b h = elim (bar_cases b h) [
  | inl e ↦ rw e (record {
    mr = record { opaque = 0; size = bar_reg_size };
    region = refl;
    size = refl;
    bar = refl;
  })
  | inr (inl e) ↦ rw e (record {
    mr = record { opaque = 1; size = bar_sram_size };
    region = refl;
    size = refl;
    bar = refl;
  })
  | inr (inr e) ↦ rw e (record {
    mr = record { opaque = 2; size = bar_mbox_size };
    region = refl;
    size = refl;
    bar = refl;
  })
]

none-ne-some : (npu : XdnaNpu) → none ≢ some npu
none-ne-some npu p = cc

module _ (q : Qemu) (b : ℕ) (h : xdna_npu_bar_size b ≢ 0) where
  abbrev HasRoute : XdnaNpuState → Type 0
  HasRoute t = (npu : XdnaNpu) → t.emu ≡ some npu → Routed t.calls t.bar_ctx b

  realize_bars-HasRoute : (s : XdnaNpuState) → HasRoute (realize_bars q s)
  unfolding realize_bars realize_cap fail_msix
  realize_bars-HasRoute s =
      if_keeps HasRoute (q.msix_init (register_bars (init_regions s)).calls)
        (if_keeps HasRoute (q.pcie_endpoint_cap_init _) (λ npu e. realized-Routed s b h)
          (λ npu e. absurd (none-ne-some npu e)))
        (λ npu e. absurd (none-ne-some npu e))

  realize-HasRoute : (s : XdnaNpuState) → HasRoute (xdna_npu_realize q s)
  unfolding xdna_npu_realize
  realize-HasRoute s = from (Option-cases s1.emu)
    where
      s1 : XdnaNpuState
      s1 = new_emu q (call (config_interrupt_pin 1) s)

      Goal : Option XdnaNpu → Type 0
      Goal o =
          let t : XdnaNpuState = elim o [
            | none ↦ call set_error s1
            | some npu ↦ realize_bars q s1
          ] in
          HasRoute t

      from : (s1.emu ≡ none) ⊎ ((npu : XdnaNpu) × (s1.emu ≡ some npu)) → Goal s1.emu
      from (inl e) = subst Goal (sym e) (λ npu e'. absurd (none-ne-some npu (sym e ∙ e')))
      from (inr (npu, e)) = subst Goal (sym e) (realize_bars-HasRoute s1)

  -- If realizing the device has left it with a core, each of the core's BARs is a registered region
  -- of the size that the core gives to it, and a read or write through that region is the core's
  -- read or write of that BAR, with the offset cut to 32 bits.
  pub realize_routes_bars :
      (s : XdnaNpuState) (npu : XdnaNpu)
      → let t = xdna_npu_realize q s in
        t.emu ≡ some npu
        → (mr : MemoryRegion) × (region_of t.calls b ≡ some mr)
          × (mr.size ≡ xdna_npu_bar_size b)
          × ((addr size : ℕ)
              → let r = xdna_npu_mmio_read b (addr % 2 ^ 32) size npu in
                xdna_bar_read q mr.opaque addr size t ≡ some (r.0, put_back q npu r.1 t))
          × ((addr val size : ℕ)
              → xdna_bar_write q mr.opaque addr val size t
                ≡ some (put_back q npu (xdna_npu_mmio_write b (addr % 2 ^ 32) val size npu) t))
  unfolding xdna_bar_read xdna_bar_write
  realize_routes_bars s npu e =
      let r = realize-HasRoute s npu e in
      (
        r.mr,
        r.region,
        r.size,
        (λ addr size. rw (e, r.bar) refl),
        (λ addr val size. rw (e, r.bar) refl),
      )

-- No register lies behind this offset.
no_register :
    (off val : ℕ) (s : XdnaNpu)
    → msix_table_offset ≤ off
    → (reg_bar_read off s ≡ (0, xdna_log log_debug s))
      × (reg_bar_write off val s ≡ xdna_log log_debug s)
unfolding reg_bar_read reg_bar_write
no_register off val s h =
    let other = λ (r : ℕ) (l : r < msix_table_offset). ne→== off r (omega arith) in
    (
      rw
          (
            other reg_pwaitmode (omega arith),
            other reg_pub_sec_intr (omega arith),
            other reg_pub_pwrmgmt_ir (omega arith),
            other reg_scratch2 (omega arith),
            other reg_scratch3 (omega arith),
            other reg_scratch4 (omega arith),
            other reg_scratch5 (omega arith),
            other reg_scratch6 (omega arith),
            other reg_scratch7 (omega arith),
            other reg_scratch9 (omega arith),
          )
          refl,
      rw
          (
            other reg_pwaitmode (omega arith),
            other reg_pub_sec_intr (omega arith),
            other reg_pub_pwrmgmt_ir (omega arith),
            other reg_scratch2 (omega arith),
            other reg_scratch3 (omega arith),
            other reg_scratch4 (omega arith),
            other reg_scratch5 (omega arith),
            other reg_scratch6 (omega arith),
            other reg_scratch7 (omega arith),
            other reg_scratch9 (omega arith),
          )
          refl,
    )

-- The MSI-X structures in the REG BAR: a table of 16 bytes for each vector, and a bit for each.
abbrev pub msix_table_size : ℕ
msix_table_size = 16 * msix_vectors

abbrev pub msix_pba_size : ℕ
msix_pba_size = 8

abbrev InMsix : ℕ → Type 0
InMsix off =
    ((msix_table_offset ≤ off) × (off < msix_table_offset + msix_table_size))
    ⊎ ((msix_pba_offset ≤ off) × (off < msix_pba_offset + msix_pba_size))

-- The MSI-X table and the pending bits lie in the REG BAR, apart from each other, and hide no
-- register: at their offsets the core has nothing but a log message for either access.
pub msix_hides_no_register :
    (off val : ℕ) (s : XdnaNpu)
    → InMsix off
    → (off < bar_reg_size)
      × (msix_table_offset + msix_table_size ≤ msix_pba_offset)
      × (reg_bar_read off s ≡ (0, xdna_log log_debug s))
      × (reg_bar_write off val s ≡ xdna_log log_debug s)
msix_hides_no_register off val s h =
    let n = no_register off val s (omega arith) in (omega arith, omega arith, n.0, n.1)
