-- ===== src/Invariant/Power.antt =====
-- The PSP and SMU commands keep the invariants.
use xdna1_npu_emulator.Firmware.Boot.{mgmt_channel}
use xdna1_npu_emulator.Prelude.{
  ℕ, suc, ◌<◌, ◌≡◌, refl, sym, ap, ◌∙◌, ◌≢◌, Bool, true, false, false≢true, arith,
}
use xdna1_npu_emulator.Regs.{sram_fw_alive_off, npu1_hwctx_limit}
use xdna1_npu_emulator.State.{
  logged, XdnaChannel, XdnaContext, XdnaPspState, cold, running, XdnaNpu, max_channels, update,
  log_info, emit, store, clear, xdna_sram_write32,
}
use xdna1_npu_emulator.Mailbox.Channel.{xdna_mbox_channel_reset}
use xdna1_npu_emulator.Firmware.{
  open_mgmt, publish_info, set_alive, xdna_fw_boot, invalidate_from, drop_contexts, set_dead,
  xdna_fw_shutdown,
}
use xdna1_npu_emulator.Psp.{psp_release}
use xdna1_npu_emulator.Invariant.{RingAt, WellFormed, Inv, InRing, RingsSafe, Safe}
use xdna1_npu_emulator.Invariant.Assign.{
  Assigned, update-Assigned, Assigned-Assigned, Assigned-elim,
}
use xdna1_npu_emulator.Invariant.Basic.{xdna_log-keeps}
use xdna1_npu_emulator.Invariant.Reset.{
  zero_channel, all_reset, mbox_reset-eq, all_reset-at, invalidate-at, idle-WellFormed,
  idle-RingsSafe,
}

module _ {chan chan' : ℕ → XdnaChannel} {ctx : ℕ → XdnaContext} {alive : Bool} {psp : XdnaPspState}
    {contexts dpm : ℕ} (w : WellFormed chan ctx alive psp contexts dpm)
    (a : Assigned chan chan' 0 mgmt_channel) where
  -- Whatever the firmware was doing, a boot gives channel 0 its rings.
  boot-WellFormed : WellFormed chan' ctx true running contexts dpm
  boot-WellFormed = record {
    index = Assigned-elim (λ j d. j < max_channels → d.index ≡ j) a (λ _. refl) w.index;
    rings =
        Assigned-elim (λ j d. j < max_channels → d.active ≡ true → RingAt j d) a
          (λ _ _. record { x2i_buf = refl; x2i_size = refl; i2x_buf = refl; i2x_size = refl })
          w.rings;
    closed =
        Assigned-elim (λ j d. j < max_channels → d.active ≡ false → d.x2i_size ≡ 0) a
          (λ _ e. absurd (false≢true (sym e))) w.closed;
    mgmt = ap (λ (c : XdnaChannel). c.active) a.here;
    slots = λ k h. ap (λ (c : XdnaChannel). c.active) (a.other (suc k) (omega arith)) ∙ w.slots k h;
    ctx_chan = w.ctx_chan;
    runs = λ _. refl;
    counted = w.counted;
    dpm_range = w.dpm_range;
  }

  boot-RingsSafe : {fault : Bool} → RingsSafe chan fault → RingsSafe chan' fault
  boot-RingsSafe r = record {
    no_fault = r.no_fault;
    in_ring =
        Assigned-elim (λ j d. j < max_channels → d.active ≡ true → InRing j d) a
          (λ _ _. omega arith) r.in_ring;
  }

-- Channel 0 is reset and then given its rings.
mgmt-Assigned :
    (chan : ℕ → XdnaChannel)
    → Assigned chan (update (update chan 0 (zero_channel 0)) 0 mgmt_channel) 0 mgmt_channel
mgmt-Assigned chan =
    Assigned-Assigned (update-Assigned chan 0 (zero_channel 0))
      (update-Assigned (update chan 0 (zero_channel 0)) 0 mgmt_channel)

-- A start from any state whose parts are well formed.
pub fw_boot-Inv : (s : XdnaNpu) → Inv s → Inv (xdna_fw_boot (record s { psp_state = running }))
unfolding xdna_fw_boot publish_info open_mgmt xdna_sram_write32 store clear xdna_mbox_channel_reset
fw_boot-Inv s w =
    let w' = boot-WellFormed w (mgmt-Assigned s.chan) in
    xdna_log-keeps Inv log_info
      (set_alive (publish_info (open_mgmt (record s { psp_state = running })))) w' w'

pub fw_boot-Safe : (s : XdnaNpu) → Safe s → Safe (xdna_fw_boot (record s { psp_state = running }))
unfolding xdna_fw_boot publish_info open_mgmt xdna_sram_write32 store clear xdna_mbox_channel_reset
fw_boot-Safe s v =
    let v' : Safe (set_alive (publish_info (open_mgmt (record s { psp_state = running })))) =
      (boot-WellFormed v.0 (mgmt-Assigned s.chan), boot-RingsSafe v.0 (mgmt-Assigned s.chan) v.1) in
    xdna_log-keeps Safe log_info
      (set_alive (publish_info (open_mgmt (record s { psp_state = running })))) v' v'

-- The state that a release leaves, but for the log.
abbrev pub released : XdnaNpu → XdnaNpu
released s =
    record (set_dead (
      xdna_sram_write32 sram_fw_alive_off 0
        (record (drop_contexts s) { chan = all_reset s.chan }))) { psp_state = cold }

pub release-keeps {ℓ} :
    (P : XdnaNpu → Type ℓ) (s : XdnaNpu)
    → P (released s)
    → P (emit (logged log_info) (released s))
    → P (psp_release s).1
unfolding xdna_fw_shutdown
release-keeps P s p q =
    rw (mbox_reset-eq (drop_contexts s))
      (xdna_log-keeps (λ t. P (record t { psp_state = cold })) log_info _ p q)

cold-ne-running : cold ≢ running
cold-ne-running e = cc

module _ (s : XdnaNpu) where
  released-Inv : Inv s → Inv (released s)
  unfolding xdna_sram_write32 store
  released-Inv w =
      idle-WellFormed (all_reset s.chan) (invalidate_from 0 npu1_hwctx_limit s.ctx) cold s.dpm_level
        (all_reset-at s.chan)
        (λ j h. invalidate-at 0 npu1_hwctx_limit s.ctx j (omega arith) (omega arith))
        cold-ne-running w.dpm_range

  released-Safe : Safe s → Safe (released s)
  unfolding xdna_sram_write32 store
  released-Safe v = (
    released-Inv v.0,
    idle-RingsSafe (all_reset s.chan) s.fault (all_reset-at s.chan) v.1.no_fault,
  )

  pub release-Inv : Inv s → Inv (psp_release s).1
  release-Inv w = release-keeps Inv s (released-Inv w) (released-Inv w)

  pub release-Safe : Safe s → Safe (psp_release s).1
  release-Safe v = release-keeps Safe s (released-Safe v) (released-Safe v)
