-- ===== src/Invariant/Reset.antt =====
-- Resetting every channel, and marking every context invalid.
use xdna1_npu_emulator.Prelude.{
  ℕ, zero, suc, ◌+◌, ◌≤◌, ◌<◌, ◌≡◌, refl, sym, ap, ◌∙◌, ◌≢◌, inl, inr, Bool, false, false≢true,
  arith, ◌==◌, ==→eq, ==→ne, eq→==, ne→==, Bool-cases,
}
use xdna1_npu_emulator.Regs.{npu1_max_dpm_level, npu1_hwctx_limit}
use xdna1_npu_emulator.State.{
  XdnaChannel, XdnaContext, XdnaPspState, running, XdnaNpu, max_channels, update,
}
use xdna1_npu_emulator.Mailbox.Channel.{
  channel_zero, xdna_mbox_channel_reset, reset_from, xdna_mbox_reset,
}
use xdna1_npu_emulator.Firmware.{invalidate_from}
use xdna1_npu_emulator.Invariant.{count_valid, WellFormed, RingsSafe}

abbrev pub zero_channel : ℕ → XdnaChannel
zero_channel i = record channel_zero { index = i }

-- The channels after `n` resets from channel `i` on.
abbrev pub reset_chans : ℕ → ℕ → (ℕ → XdnaChannel) → ℕ → XdnaChannel
reset_chans i zero chan = chan
reset_chans i (suc n) chan = reset_chans (suc i) n (update chan i (zero_channel i))

abbrev pub all_reset : (ℕ → XdnaChannel) → ℕ → XdnaChannel
all_reset = reset_chans 0 max_channels

pub mbox_reset-eq : (s : XdnaNpu) → xdna_mbox_reset s ≡ record s { chan = all_reset s.chan }
unfolding xdna_mbox_reset reset_from xdna_mbox_channel_reset
mbox_reset-eq s = refl

reset_chans-before :
    (i n : ℕ) (chan : ℕ → XdnaChannel) (j : ℕ) → j < i → reset_chans i n chan j ≡ chan j
reset_chans-before i zero chan j h = refl
reset_chans-before i (suc n) chan j h =
    reset_chans-before (suc i) n (update chan i (zero_channel i)) j (omega arith)
    ∙ (rw (ne→== j i (omega arith)))

reset_chans-at :
    (i n : ℕ) (chan : ℕ → XdnaChannel) (j : ℕ)
    → i ≤ j
    → j < i + n
    → reset_chans i n chan j ≡ zero_channel j
reset_chans-at i zero chan j h l = absurd (omega arith)
reset_chans-at i (suc n) chan j h l = elim (Bool-cases (j == i)) [
  | inl e ↦
      let same : j ≡ i = ==→eq j i e in
      rw same (
        reset_chans-before (suc i) n (update chan i (zero_channel i)) i (omega arith)
        ∙ (rw (eq→== i i refl)))
  | inr o ↦
      reset_chans-at (suc i) n (update chan i (zero_channel i)) j (omega (arith, ==→ne j i o))
        (omega arith)
]

pub all_reset-at :
    (chan : ℕ → XdnaChannel) (j : ℕ) → j < max_channels → all_reset chan j ≡ zero_channel j
all_reset-at chan j h = reset_chans-at 0 max_channels chan j (omega arith) (omega arith)

invalidate-before :
    (i n : ℕ) (ctx : ℕ → XdnaContext) (j : ℕ) → j < i → invalidate_from i n ctx j ≡ ctx j
unfolding invalidate_from
invalidate-before i zero ctx j h = refl
invalidate-before i (suc n) ctx j h =
    invalidate-before (suc i) n (update ctx i (record (ctx i) { valid = false })) j (omega arith)
    ∙ (rw (ne→== j i (omega arith)))

pub invalidate-at :
    (i n : ℕ) (ctx : ℕ → XdnaContext) (j : ℕ)
    → i ≤ j
    → j < i + n
    → (invalidate_from i n ctx j).valid ≡ false
unfolding invalidate_from
invalidate-at i zero ctx j h l = absurd (omega arith)
invalidate-at i (suc n) ctx j h l = elim (Bool-cases (j == i)) [
  | inl e ↦
      let same : j ≡ i = ==→eq j i e in
      rw same (
        ap (λ (c : XdnaContext). c.valid)
          (invalidate-before (suc i) n (update ctx i (record (ctx i) { valid = false })) i
            (omega arith))
        ∙ (rw (eq→== i i refl)))
  | inr o ↦
      invalidate-at (suc i) n (update ctx i (record (ctx i) { valid = false })) j
        (omega (arith, ==→ne j i o)) (omega arith)
]

pub count-none :
    (ctx : ℕ → XdnaContext) (n : ℕ)
    → ((j : ℕ) → j < n → (ctx j).valid ≡ false)
    → count_valid ctx n ≡ 0
count-none ctx zero h = refl
count-none ctx (suc n) h = rw (h n (omega arith), count-none ctx n (λ j l. h j (omega arith)))

-- A device with no firmware, no context and every channel at rest.
pub idle-WellFormed :
    (chan : ℕ → XdnaChannel) (ctx : ℕ → XdnaContext) (psp : XdnaPspState) (dpm : ℕ)
    → ((j : ℕ) → j < max_channels → chan j ≡ zero_channel j)
    → ((j : ℕ) → j < npu1_hwctx_limit → (ctx j).valid ≡ false)
    → psp ≢ running
    → dpm ≤ npu1_max_dpm_level
    → WellFormed chan ctx false psp 0 dpm
idle-WellFormed chan ctx psp dpm rest none_valid stopped range = record {
  index = λ i h. ap (λ (c : XdnaChannel). c.index) (rest i h);
  rings = λ i h a. absurd (false≢true (sym (ap (λ (c : XdnaChannel). c.active) (rest i h)) ∙ a));
  closed = λ i h a. ap (λ (c : XdnaChannel). c.x2i_size) (rest i h);
  mgmt = ap (λ (c : XdnaChannel). c.active) (rest 0 (omega arith));
  slots =
      λ k h. ap (λ (c : XdnaChannel). c.active) (rest (suc k) (omega arith)) ∙ sym (none_valid k h);
  ctx_chan = λ k h v. absurd (false≢true (sym (none_valid k h) ∙ v));
  runs = λ e. absurd (stopped e);
  counted = sym (count-none ctx npu1_hwctx_limit none_valid);
  dpm_range = range;
}

pub idle-RingsSafe :
    (chan : ℕ → XdnaChannel) (fault : Bool)
    → ((j : ℕ) → j < max_channels → chan j ≡ zero_channel j)
    → fault ≡ false
    → RingsSafe chan fault
idle-RingsSafe chan fault rest ok = record {
  no_fault = ok;
  in_ring = λ i h a. absurd (false≢true (sym (ap (λ (c : XdnaChannel). c.active) (rest i h)) ∙ a));
}
