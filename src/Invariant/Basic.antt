-- ===== src/Invariant/Basic.antt =====
-- The invariants through an assignment to one channel, and through the accesses to SRAM.
use xdna1_npu_emulator.Prelude.{
  ℕ, suc, ◌+◌, ◌≤◌, ◌<◌, ◌≡◌, refl, sym, ◌∙◌, subst, inl, inr, Bool, true, false, List, arith, ltb,
  ◌==◌, le→ltb, le→leb, ==→eq, Bool-cases, if_keeps, length, add32, u32_bytes,
}
use xdna1_npu_emulator.Regs.{bar_sram_size}
use xdna1_npu_emulator.State.{
  logged, XdnaChannel, XdnaContext, XdnaPspState, XdnaNpu, max_channels, update, emit, xdna_log,
  in_sram, touch, store, clear, xdna_sram_write32,
}
use xdna1_npu_emulator.Invariant.{RingAt, WellFormed, Inv, InRing, RingsSafe, Safe}

-- The channels agree in what the driver does not write and `xdna_mbox_send` does not move.
pub record SameChannel (c d : XdnaChannel) : Type 0 where
  pub active : c.active ≡ d.active
  pub index : c.index ≡ d.index
  pub x2i_buf : c.x2i_buf ≡ d.x2i_buf
  pub x2i_size : c.x2i_size ≡ d.x2i_size
  pub i2x_buf : c.i2x_buf ≡ d.i2x_buf
  pub i2x_size : c.i2x_size ≡ d.i2x_size

-- A property of every element of an array passes an assignment to one of them.
pub update_elim {ℓ κ} :
    {A : Type ℓ} (P : ℕ → A → Type κ) (f : ℕ → A) (i : ℕ) (v : A)
    → P i v
    → ((j : ℕ) → P j (f j))
    → (j : ℕ) → P j (update f i v j)
update_elim P f i v new old j = elim (Bool-cases (j == i)) [
  | inl e ↦ rw e (subst (λ k. P k v) (sym (==→eq j i e)) new)
  | inr n ↦ rw n (old j)
]

RingAt-same : {i : ℕ} {c d : XdnaChannel} → SameChannel c d → RingAt i d → RingAt i c
RingAt-same same r = ground arith

module _ {chan : ℕ → XdnaChannel} {ctx : ℕ → XdnaContext} {alive : Bool} {psp : XdnaPspState}
    {contexts dpm : ℕ} (w : WellFormed chan ctx alive psp contexts dpm) (i : ℕ) (c : XdnaChannel)
    (same : SameChannel c (chan i)) where
  pub update-WellFormed : WellFormed (update chan i c) ctx alive psp contexts dpm
  update-WellFormed = record {
    index =
        update_elim (λ j d. j < max_channels → d.index ≡ j) chan i c (λ h. same.index ∙ w.index i h)
          w.index;
    rings =
        update_elim (λ j d. j < max_channels → d.active ≡ true → RingAt j d) chan i c
          (λ h a. RingAt-same same (w.rings i h (sym same.active ∙ a))) w.rings;
    closed =
        update_elim (λ j d. j < max_channels → d.active ≡ false → d.x2i_size ≡ 0) chan i c
          (λ h a. same.x2i_size ∙ w.closed i h (sym same.active ∙ a)) w.closed;
    mgmt = active_same 0 ∙ w.mgmt;
    slots = λ k h. active_same (suc k) ∙ w.slots k h;
    ctx_chan = w.ctx_chan;
    runs = w.runs;
    counted = w.counted;
    dpm_range = w.dpm_range;
  }
    where
      active_same : (j : ℕ) → (update chan i c j).active ≡ (chan j).active
      active_same = update_elim (λ j d. d.active ≡ (chan j).active) chan i c same.active (λ j. refl)

pub update-RingsSafe :
    {chan : ℕ → XdnaChannel} {fault : Bool} (i : ℕ) (c : XdnaChannel)
    → (i < max_channels → c.active ≡ true → InRing i c)
    → RingsSafe chan fault
    → RingsSafe (update chan i c) fault
update-RingsSafe {chan} i c new r = record {
  no_fault = r.no_fault;
  in_ring =
      update_elim (λ j d. j < max_channels → d.active ≡ true → InRing j d) chan i c new r.in_ring;
}

-- The accesses to SRAM and the log leave the parts of the invariants alone.
pub xdna_log-keeps {ℓ} :
    (P : XdnaNpu → Type ℓ) (level : ℕ) (s : XdnaNpu)
    → P s
    → P (emit (logged level) s)
    → P (xdna_log level s)
unfolding xdna_log
xdna_log-keeps P level s p q = if_keeps P s.ops.log q p

module _ (off : ℕ) (bs : List ℕ) (s : XdnaNpu) where
  pub store-Inv : Inv s → Inv (store off bs s)
  unfolding store
  store-Inv v = if_keeps Inv (in_sram off (length bs)) v v

  pub store-Safe : off + length bs ≤ bar_sram_size → Safe s → Safe (store off bs s)
  unfolding store
  store-Safe h v = rw (le→leb _ _ h) v

module _ (off len : ℕ) (s : XdnaNpu) where
  pub clear-Inv : Inv s → Inv (clear off len s)
  unfolding clear
  clear-Inv v = if_keeps Inv (in_sram off len) v v

  pub clear-Safe : off + len ≤ bar_sram_size → Safe s → Safe (clear off len s)
  unfolding clear
  clear-Safe h v = rw (le→leb _ _ h) v

  pub touch-Inv : Inv s → Inv (touch off len s)
  unfolding touch
  touch-Inv v = if_keeps Inv (in_sram off len) v v

  pub touch_in : off + len ≤ bar_sram_size → touch off len s ≡ s
  unfolding touch
  touch_in h = rw (le→leb _ _ h)

pub write32-Inv : (off v : ℕ) (s : XdnaNpu) → Inv s → Inv (xdna_sram_write32 off v s)
unfolding xdna_sram_write32
write32-Inv off v s w =
    if_keeps Inv (ltb bar_sram_size (add32 off 4)) w (store-Inv off (u32_bytes v) s w)

pub write32-Safe :
    (off v : ℕ) (s : XdnaNpu) → off + 4 ≤ bar_sram_size → Safe s → Safe (xdna_sram_write32 off v s)
unfolding xdna_sram_write32
write32-Safe off v s h w =
    rw (le→ltb bar_sram_size (add32 off 4) (omega arith)) (store-Safe off (u32_bytes v) s h w)
