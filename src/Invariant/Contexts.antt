-- ===== src/Invariant/Contexts.antt =====
-- Creating and destroying contexts keeps the invariants.
use xdna1_npu_emulator.Prelude.{
  ℕ, suc, ◌+◌, ◌<◌, ◌≡◌, refl, sym, ap, ◌∙◌, subst, true, false, false≢true, arith, le→leb, lt→leb,
  eq→==, ne→==,
}
use xdna1_npu_emulator.Regs.{bar_sram_size, sram_ctx_rb_size, sram_ctx_rb_stride, npu1_hwctx_limit}
use xdna1_npu_emulator.State.{XdnaChannel, XdnaContext, XdnaNpu, max_channels, update, clear}
use xdna1_npu_emulator.Mailbox.Channel.{channel_zero, xdna_mbox_channel_reset}
use xdna1_npu_emulator.Mert.Wire.{CreateCtxReq, MapHostBufferReq}
use xdna1_npu_emulator.Mert.Context.{slot_rb_base, open_channel, fill_slot, release_slot, set_heap}
use xdna1_npu_emulator.Invariant.{RingAt, Inv, InRing, Safe}
use xdna1_npu_emulator.Invariant.Basic.{update-RingsSafe}
use xdna1_npu_emulator.Mem.{Mem}
use xdna1_npu_emulator.Invariant.Assign.{
  Assigned, update-Assigned, Assigned-elim, count-Assigned, count-le, count-same, assign-WellFormed,
}

-- The channel of a slot just opened.
abbrev pub fresh_channel : ℕ → XdnaChannel
fresh_channel slot = record channel_zero {
  active = true;
  index = suc slot;
  x2i_buf = slot_rb_base slot;
  x2i_size = sram_ctx_rb_size;
  i2x_buf = slot_rb_base slot + sram_ctx_rb_size;
  i2x_size = sram_ctx_rb_size;
}

-- The channels after `open_channel`.
abbrev pub opened : ℕ → (ℕ → XdnaChannel) → ℕ → XdnaChannel
opened slot chan =
    let reset = update chan (slot + 1) (record channel_zero { index = slot + 1 }) in
    update reset (slot + 1) (record (reset (slot + 1)) {
      active = true;
      index = slot + 1;
      x2i_buf = slot_rb_base slot;
      x2i_size = sram_ctx_rb_size;
      i2x_buf = slot_rb_base slot + sram_ctx_rb_size;
      i2x_size = sram_ctx_rb_size;
    })

pub opened-Assigned :
    (slot : ℕ) (chan : ℕ → XdnaChannel)
    → Assigned chan (opened slot chan) (suc slot) (fresh_channel slot)
opened-Assigned slot chan =
    let e : slot + 1 ≡ suc slot = omega arith in
    rw e (record {
      here = rw (eq→== (suc slot) (suc slot) refl);
      other = λ j h. rw (ne→== j (suc slot) h);
    })

-- `open_channel` assigns the channel, clears its rings and does nothing else.
pub open_channel-keeps {ℓ} :
    (P : XdnaNpu → Type ℓ) (slot : ℕ) (s : XdnaNpu)
    → slot < npu1_hwctx_limit
    → P (clear (slot_rb_base slot) sram_ctx_rb_stride (record s { chan = opened slot s.chan }))
    → P (open_channel slot s)
unfolding open_channel xdna_mbox_channel_reset
open_channel-keeps P slot s h p = rw (lt→leb max_channels (slot + 1) (omega arith)) p

fresh-RingAt : (slot : ℕ) → RingAt (suc slot) (fresh_channel slot)
fresh-RingAt slot = ground arith

module _ (slot : ℕ) (req : CreateCtxReq) (s : XdnaNpu) (h : slot < npu1_hwctx_limit)
    (free : (s.ctx slot).valid ≡ false) where
  -- The state after the creation, but for the memory that is cleared.
  created-WellFormed : Inv s → Inv (fill_slot slot req (record s { chan = opened slot s.chan }))
  created-WellFormed w =
      let put = update-Assigned s.ctx slot (record {
        valid = true;
        id = s.next_ctx_id;
        pasid = req.pasid;
        start_col = req.start_col;
        num_col = req.num_col;
        priority = req.context_priority;
        chan = slot + 1;
        heap_addr = 0;
        heap_size = 0;
      }) in
      assign-WellFormed w (opened-Assigned slot s.chan) put refl (λ _. fresh-RingAt slot)
        (λ e. absurd (false≢true (sym e))) refl (λ _. omega arith)
        (ground (
          arith,
          w.counted,
          count-Assigned put npu1_hwctx_limit h,
          count-le s.ctx npu1_hwctx_limit,
        ))

  cleared-keeps {ℓ} :
      (P : XdnaNpu → Type ℓ)
      → ((m : Mem) → P (fill_slot slot req (record s { chan = opened slot s.chan; sram = m })))
      → P (fill_slot slot req (open_channel slot s))
  unfolding clear
  cleared-keeps P p =
      open_channel-keeps (λ t. P (fill_slot slot req t)) slot s h
        (rw (le→leb (slot_rb_base slot + sram_ctx_rb_stride) bar_sram_size (omega arith)) (p _))

  pub create-Inv : Inv s → Inv (fill_slot slot req (open_channel slot s))
  create-Inv w = cleared-keeps Inv (λ m. created-WellFormed w)

  pub create-Safe : Safe s → Safe (fill_slot slot req (open_channel slot s))
  create-Safe v = cleared-keeps Safe λ m. (
    created-WellFormed v.0,
    record {
      no_fault = v.1.no_fault;
      in_ring =
          Assigned-elim (λ j c. j < max_channels → c.active ≡ true → InRing j c)
            (opened-Assigned slot s.chan) (λ _ _. ground arith) v.1.in_ring;
    },
  )

-- `xdna_mbox_channel_reset` on a channel of the device.
pub channel_reset-Assigned :
    (i : ℕ) (s : XdnaNpu)
    → i < max_channels
    → (xdna_mbox_channel_reset i s)
      ≡ record s { chan = update s.chan i (record channel_zero { index = i }) }
unfolding xdna_mbox_channel_reset
channel_reset-Assigned i s h = rw (lt→leb max_channels i h)

module _ (slot : ℕ) (s : XdnaNpu) (h : slot < npu1_hwctx_limit)
    (taken : (s.ctx slot).valid ≡ true) where
  -- The state after the destruction of a context whose channel is the slot's.
  destroyed : XdnaNpu
  destroyed =
      release_slot slot
        (record s { chan = update s.chan (suc slot) (record channel_zero { index = suc slot }) })

  destroyed-WellFormed : Inv s → Inv destroyed
  unfolding destroyed
  destroyed-WellFormed w =
      let off = update-Assigned s.ctx slot (record (s.ctx slot) { valid = false }) in
      let gone = update-Assigned s.chan (suc slot) (record channel_zero { index = suc slot }) in
      assign-WellFormed w gone off refl (λ e. absurd (false≢true e)) (λ _. refl) refl
        (λ e. absurd (false≢true e))
        (ground (arith, w.counted, count-Assigned off npu1_hwctx_limit h))

  destroyed-eq : Inv s → release_slot slot (xdna_mbox_channel_reset (s.ctx slot).chan s) ≡ destroyed
  unfolding destroyed
  destroyed-eq w = ap (release_slot slot) (
      ap (λ i. xdna_mbox_channel_reset i s) (w.ctx_chan slot h taken)
      ∙ channel_reset-Assigned (suc slot) s (omega arith))

  pub destroy-Inv : Inv s → Inv (release_slot slot (xdna_mbox_channel_reset (s.ctx slot).chan s))
  destroy-Inv w = subst Inv (sym (destroyed-eq w)) (destroyed-WellFormed w)

  pub destroy-Safe : Safe s → Safe (release_slot slot (xdna_mbox_channel_reset (s.ctx slot).chan s))
  unfolding destroyed
  destroy-Safe v = subst Safe (sym (destroyed-eq v.0)) (
    destroyed-WellFormed v.0,
    update-RingsSafe (suc slot) (record channel_zero { index = suc slot })
        (λ _ e. absurd (false≢true e)) v.1,
  )

-- A heap is noted in the context, and nothing else changes.
pub set_heap-Inv :
    (slot : ℕ) (req : MapHostBufferReq) (s : XdnaNpu) → Inv s → Inv (set_heap slot req s)
set_heap-Inv slot req s w =
    let put = update-Assigned s.ctx slot c' in
    record {
      index = w.index;
      rings = w.rings;
      closed = w.closed;
      mgmt = w.mgmt;
      slots = λ k h. w.slots k h ∙ sym (same put k);
      ctx_chan =
          Assigned-elim (λ k d. k < npu1_hwctx_limit → d.valid ≡ true → d.chan ≡ suc k) put
            (w.ctx_chan slot) w.ctx_chan;
      runs = w.runs;
      counted =
          w.counted ∙ sym (count-same (update s.ctx slot c') s.ctx (same put) npu1_hwctx_limit);
      dpm_range = w.dpm_range;
    }
  where
    c' : XdnaContext
    c' = record (s.ctx slot) { heap_addr = req.buf_addr; heap_size = req.buf_size }

    same :
        Assigned s.ctx (update s.ctx slot c') slot c'
        → (k : ℕ) → (update s.ctx slot c' k).valid ≡ (s.ctx k).valid
    same put = Assigned-elim (λ k d. d.valid ≡ (s.ctx k).valid) put refl (λ k. refl)
