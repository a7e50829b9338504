-- ===== src/Mert/Lifetime.antt =====
-- src/xdna_mert.c: a context that is destroyed leaves the table as it was before its creation.
use xdna1_npu_emulator.Prelude.{
  ℕ, ◌-◌, ◌^◌, ◌≤◌, ◌<◌, ◌≡◌, refl, sym, ap, ◌∙◌, inl, inr, false, false≢true, none, some, List,
  arith, ◌==◌, if◌then◌else◌, le→ltb, ==→eq, eq→==, ne→==, Bool-cases, Option-cases, u32_at,
}
use xdna1_npu_emulator.Regs.{npu1_hwctx_limit}
use xdna1_npu_emulator.Regs.Opcodes.{aie2_status_success}
use xdna1_npu_emulator.State.{XdnaMsgHeader, XdnaContext, XdnaNpu, update, log_info}
use xdna1_npu_emulator.Mert.Wire.{create_ctx_req}
use xdna1_npu_emulator.Mert.Context.{
  has_id, ctx_by_id, handle_create_context, release_slot, destroy_slot, handle_destroy_context,
}
use xdna1_npu_emulator.Mert.Slots.{first_slot-some, first_slot-finds}
use xdna1_npu_emulator.Mailbox.Channel.{xdna_mbox_channel_reset}
use xdna1_npu_emulator.Mert.Table.{
  SameTable-trans, log-SameTable, reset-SameTable, status-SameTable,
}
use xdna1_npu_emulator.Mert.Lifecycle.{ValidCreate, LowestFree, new_context, create_fills_slot}

-- No valid context has the id.
abbrev pub Unused : ℕ → XdnaNpu → Type 0
Unused id s = (k : ℕ) → k < npu1_hwctx_limit → has_id id (s.ctx k) ≡ false

-- The lookup of an unused id finds nothing.
Unused-none : (id : ℕ) (s : XdnaNpu) → Unused id s → ctx_by_id id s ≡ none
Unused-none id s h = elim (Option-cases (ctx_by_id id s)) [
  | inl e ↦ e
  | inr f ↦
      let r = first_slot-some (has_id id) s.ctx 0 npu1_hwctx_limit f.0 f.1 in
      absurd (false≢true (sym (h f.0 r.below) ∙ r.passes))
]

module _ (chan : ℕ) (hdr : XdnaMsgHeader) (payload : List ℕ) (s : XdnaNpu) (slot : ℕ)
    (long : 4 ≤ hdr.total_size) (found : ctx_by_id (u32_at payload 0) s ≡ some slot) where
  -- The slot that the id is found in is marked invalid, and nothing else changes in the table; the
  -- counter goes down unless it is 0.
  destroy_frees_slot :
      let t = handle_destroy_context chan hdr payload s in
      (t.ctx ≡ update s.ctx slot (record (s.ctx slot) { valid = false }))
      × (t.stats.active_contexts ≡ s.stats.active_contexts - 1)
  unfolding handle_destroy_context destroy_slot
  destroy_frees_slot =
      let mid = xdna_mbox_channel_reset (s.ctx slot).chan s in
      let r = reset-SameTable (s.ctx slot).chan s in
      let after =
        SameTable-trans (log-SameTable log_info (release_slot slot mid))
          (status-SameTable chan hdr aie2_status_success _) in
      rw (le→ltb hdr.total_size 4 long, found)
        (
          after.ctx ∙ (λ i. update (r.ctx i) slot (record (r.ctx i slot) { valid = false })),
          after.counted ∙ ap lower r.counted ∙ lowered s.stats.active_contexts,
        )
    where
      lower : ℕ → ℕ
      lower n = if n == 0 then n else n - 1

      lowered : (n : ℕ) → lower n ≡ n - 1
      lowered n = ground arith

module _ (chan : ℕ) (hdr : XdnaMsgHeader) (payload : List ℕ) (destroy_chan : ℕ)
    (destroy_hdr : XdnaMsgHeader) (destroy_payload : List ℕ) (s : XdnaNpu) (slot : ℕ)
    (ok : ValidCreate hdr payload) (first : LowestFree s slot) (fresh : Unused s.next_ctx_id s)
    (few : s.stats.active_contexts < 2 ^ 32 - 1) (long : 4 ≤ destroy_hdr.total_size)
    (named : u32_at destroy_payload 0 ≡ s.next_ctx_id) where
  -- The new context is found under its id, in its slot.
  found_again : ctx_by_id s.next_ctx_id (handle_create_context chan hdr payload s) ≡ some slot
  found_again =
      let new = new_context slot (create_ctx_req payload) s.next_ctx_id in
      let id = s.next_ctx_id in
      rw ((create_fills_slot chan hdr payload s slot ok first).0) (
        first_slot-finds (has_id id) (update s.ctx slot new) 0 npu1_hwctx_limit slot (record {
          from = omega arith;
          below = first.below;
          passes = rw (eq→== slot slot refl, eq→== id id refl) refl;
          before = λ j h l.
              rw (ne→== j slot (λ e. absurd (omega (arith, l, e))))
                (fresh j (omega (arith, l, first.below)));
        }))

  -- If a context is created under an id that is not in use, and then destroyed under that id, the
  -- same slots are valid as before, as many contexts are counted, and the id is found no more.
  pub destroy-create :
      let t = handle_create_context chan hdr payload s in
      let u = handle_destroy_context destroy_chan destroy_hdr destroy_payload t in
      ((k : ℕ) → (u.ctx k).valid ≡ (s.ctx k).valid)
      × (u.stats.active_contexts ≡ s.stats.active_contexts)
      × (ctx_by_id s.next_ctx_id u ≡ none)
  destroy-create =
      let t = handle_create_context chan hdr payload s in
      let u = handle_destroy_context destroy_chan destroy_hdr destroy_payload t in
      let c = create_fills_slot chan hdr payload s slot ok first in
      let new = new_context slot (create_ctx_req payload) s.next_ctx_id in
      let d =
        destroy_frees_slot destroy_chan destroy_hdr destroy_payload t slot long
          (rw named found_again) in
      let gone : XdnaContext = record (t.ctx slot) { valid = false } in
      let table : u.ctx ≡ update (update s.ctx slot new) slot gone =
        d.0 ∙ (λ i. update (c.0 i) slot gone) in
      let valid : (k : ℕ) → (u.ctx k).valid ≡ (s.ctx k).valid =
        λ k. ap (λ (f : ℕ → XdnaContext). (f k).valid) table ∙ restored k new gone refl in
      (
        valid,
        omega (arith, d.1, c.2, few),
        Unused-none s.next_ctx_id u (λ k h.
            ap (λ (f : ℕ → XdnaContext). has_id s.next_ctx_id (f k)) table
            ∙ unused_again k h new gone refl),
      )
    where
      free : (s.ctx slot).valid ≡ false
      free = ground (arith, first.passes)

      restored :
          (k : ℕ) (a b : XdnaContext)
          → b.valid ≡ false
          → (update (update s.ctx slot a) slot b k).valid ≡ (s.ctx k).valid
      restored k a b e = elim (Bool-cases (k == slot)) [
        | inl is ↦ rw (==→eq k slot is, eq→== slot slot refl) (e ∙ sym free)
        | inr other ↦ rw other refl
      ]

      unused_again :
          (k : ℕ)
          → k < npu1_hwctx_limit
          → (a b : XdnaContext) → b.valid ≡ false
          → has_id s.next_ctx_id (update (update s.ctx slot a) slot b k) ≡ false
      unused_again k h a b e = elim (Bool-cases (k == slot)) [
        | inl is ↦ rw (is, e) refl
        | inr other ↦ rw other (fresh k h)
      ]
