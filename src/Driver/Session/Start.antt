-- ===== src/Driver/Session/Start.antt =====
-- tests/test_boot.c: the driver starts the hardware.
use xdna1_npu_emulator.Prelude.{
  ℕ, ◌/◌, ◌%◌, ◌^◌, ◌<◌, ◌≡◌, refl, sym, ap, ◌∙◌, subst, Bool, true, arith,
}
use xdna1_npu_emulator.Regs.{
  psp_status_ready, psp_cmd_validate, psp_cmd_start, psp_start_copy_fw, aie_smu_power_on,
  aie_smu_power_off,
}
use xdna1_npu_emulator.Psp.{psp_peek_bytes, xdna_psp_kick}
use xdna1_npu_emulator.Driver.Session.{fw_paddr, fw_size, new_drv, drv_fw_start, drv_hw_start}
use xdna1_npu_emulator.State.{
  validated, running, XdnaNpu, log_info, xdna_log, store, clear, xdna_sram_write32,
}
use xdna1_npu_emulator.Firmware.{open_mgmt, publish_info, xdna_fw_boot, xdna_fw_shutdown}
use xdna1_npu_emulator.Firmware.Boot.{mgmt_channel, Published}
use xdna1_npu_emulator.Psp.Kept.{PspKept, psp_kick-keeps}
use xdna1_npu_emulator.Smu.{smu_run, xdna_smu_kick}
use xdna1_npu_emulator.Smu.Settings.{is_accepted, smu_kick_sets}
use xdna1_npu_emulator.Invariant.{Safe}
use xdna1_npu_emulator.Invariant.Commands.{psp_kick-Safe, smu_kick-Safe}
use xdna1_npu_emulator.Driver.{psp_exec, smu_exec}
use xdna1_npu_emulator.Driver.Registers.{psp_loaded}
use xdna1_npu_emulator.Driver.Handshake.{PspWords, psp_exec_kicks}
use xdna1_npu_emulator.Driver.Power.{smu_loaded, smu_exec_kicks}
use xdna1_npu_emulator.Driver.Boot.{CanRead, started_by, validated_by}
use xdna1_npu_emulator.Driver.Receive.{Drv}
use xdna1_npu_emulator.Driver.Attach.{attach, drv_get_mgmt_chann_info}
use xdna1_npu_emulator.Driver.Attach.Boot.{KnowsMgmt, attach-KnowsMgmt, attaches}
use xdna1_npu_emulator.Mailbox.Channel.{xdna_mbox_channel_reset, reset_from, xdna_mbox_reset}
use xdna1_npu_emulator.Invariant.Basic.{xdna_log-keeps}

-- An SMU command leaves the status register of the PSP and the callbacks of the host alone.
smu_kick-ready : (s : XdnaNpu) → (xdna_smu_kick s).scratch 2 ≡ s.scratch 2
unfolding xdna_smu_kick smu_run xdna_log
smu_kick-ready s = ground arith

smu_kick-ops : (s : XdnaNpu) → (xdna_smu_kick s).ops ≡ s.ops
unfolding xdna_smu_kick smu_run xdna_log
smu_kick-ops s = ground arith

-- A command of the PSP leaves the power alone.
abbrev Powered : XdnaNpu → Type 0
Powered s = s.power_on ≡ true

Powered-PspKept : PspKept Powered
unfolding xdna_fw_shutdown xdna_fw_boot publish_info open_mgmt xdna_sram_write32 store clear
    xdna_mbox_channel_reset xdna_mbox_reset reset_from
Powered-PspKept = record {
  log = λ level s p. xdna_log-keeps Powered level s p p;
  asked = λ paddr n s p. p;
  asked_phys = λ paddr n s p. p;
  accept = λ paddr size s p. p;
  boot = λ s p. xdna_log-keeps Powered log_info _ p p;
  release = λ s p. xdna_log-keeps Powered log_info _ p p;
  regs = λ f s p. p;
  count = λ s p. p;
}

smu_kick-powers : (s : XdnaNpu) → Powered (xdna_smu_kick (smu_loaded aie_smu_power_on 0 s))
smu_kick-powers s = (smu_kick_sets (smu_loaded aie_smu_power_on 0 s)).0

-- What the driver has when the hardware has been started: the firmware runs on a powered device that
-- is in order, and the driver knows channel 0, whose rings are new.
pub record Up (d : Drv) (t : XdnaNpu) : Type 0 where
  pub safe : Safe t
  pub powered : t.power_on ≡ true
  pub alive : t.fw_alive ≡ true
  pub started : t.psp_state ≡ running
  pub mgmt : t.chan 0 ≡ mgmt_channel
  pub knows : KnowsMgmt mgmt_channel d
  pub next_id : d.next_id ≡ 1

smu_power :
    (cmd : ℕ) (s : XdnaNpu)
    → cmd < 2 ^ 32
    → is_accepted cmd 0 ≡ true
    → let t = xdna_smu_kick (smu_loaded cmd 0 s) in smu_exec cmd 0 s ≡ (true, t.scratch 7, t)
smu_power cmd s h known =
    let t = xdna_smu_kick (smu_loaded cmd 0 s) in
    (smu_exec_kicks cmd 0 s h (omega arith)).1 ∙ (λ i. (known i, t.scratch 7, t))

module _ (s : XdnaNpu) (ready : s.scratch 2 ≡ psp_status_ready)
    (reads : CanRead s.ops fw_paddr psp_peek_bytes) (v : Safe s) where
  abbrev off : XdnaNpu
  off = xdna_smu_kick (smu_loaded aie_smu_power_off 0 s)

  abbrev on : XdnaNpu
  on = xdna_smu_kick (smu_loaded aie_smu_power_on 0 off)

  abbrev lo : ℕ
  lo = fw_paddr % 2 ^ 32

  abbrev hi : ℕ
  hi = fw_paddr / 2 ^ 32 % 2 ^ 32

  abbrev valid : XdnaNpu
  valid = xdna_psp_kick (psp_loaded psp_cmd_validate lo hi fw_size on)

  abbrev booted : XdnaNpu
  booted = xdna_psp_kick (psp_loaded psp_cmd_start psp_start_copy_fw 0 0 valid)

  on-ready : on.scratch 2 ≡ psp_status_ready
  on-ready =
      smu_kick-ready (smu_loaded aie_smu_power_on 0 off)
      ∙ smu_kick-ready (smu_loaded aie_smu_power_off 0 s)
      ∙ ready

  on-CanRead : CanRead on.ops fw_paddr psp_peek_bytes
  on-CanRead =
      rw
        (
          smu_kick-ops (smu_loaded aie_smu_power_on 0 off),
          smu_kick-ops (smu_loaded aie_smu_power_off 0 s),
        )
        reads

  validate-PspWords : PspWords psp_cmd_validate lo hi fw_size
  validate-PspWords = record {
    cmd_word = omega arith;
    arg0_word = omega arith;
    arg1_word = omega arith;
    arg2_word = omega arith;
  }

  start-PspWords : PspWords psp_cmd_start psp_start_copy_fw 0 0
  start-PspWords = record {
    cmd_word = omega arith;
    arg0_word = omega arith;
    arg1_word = omega arith;
    arg2_word = omega arith;
  }

  validates : psp_exec psp_cmd_validate lo hi fw_size on ≡ (true, valid)
  validates =
      let e = psp_exec_kicks psp_cmd_validate lo hi fw_size on on-ready validate-PspWords in
      let r =
        validated_by lo hi fw_size on on-ready validate-PspWords (λ z. absurd (omega (arith, z)))
          on-CanRead in
      e ∙ (λ i. ((sym (ap (λ (x : Bool × XdnaNpu). x.0) e) ∙ r.0) i, valid))

  valid_state : (valid.psp_state ≡ validated) × (valid.scratch 2 ≡ psp_status_ready)
  valid_state =
      let r =
        validated_by lo hi fw_size on on-ready validate-PspWords (λ z. absurd (omega (arith, z)))
          on-CanRead in
      subst (λ (t : XdnaNpu). (t.psp_state ≡ validated) × (t.scratch 2 ≡ psp_status_ready))
        (ap (λ (x : Bool × XdnaNpu). x.1) validates) (r.1, r.2)

  starts : psp_exec psp_cmd_start psp_start_copy_fw 0 0 valid ≡ (true, booted)
  starts =
      let e =
        psp_exec_kicks psp_cmd_start psp_start_copy_fw 0 0 valid valid_state.1 start-PspWords in
      let r = started_by valid valid_state.1 valid_state.0 in
      e ∙ (λ i. ((sym (ap (λ (x : Bool × XdnaNpu). x.0) e) ∙ r.0) i, booted))

  booted_state :
      (booted.fw_alive ≡ true)
      × (booted.psp_state ≡ running)
      × Published booted
      × (booted.chan 0 ≡ mgmt_channel)
  booted_state =
      let r = started_by valid valid_state.1 valid_state.0 in
      subst
        (λ (t : XdnaNpu).
          (t.fw_alive ≡ true) × (t.psp_state ≡ running) × Published t × (t.chan 0 ≡ mgmt_channel))
        (ap (λ (x : Bool × XdnaNpu). x.1) starts) (r.1, r.2, r.3, r.4)

  booted-Safe : Safe booted
  booted-Safe = psp_kick-Safe (psp_loaded psp_cmd_start psp_start_copy_fw 0 0 valid) (
      psp_kick-Safe (psp_loaded psp_cmd_validate lo hi fw_size on) (
        smu_kick-Safe (smu_loaded aie_smu_power_on 0 off)
          (smu_kick-Safe (smu_loaded aie_smu_power_off 0 s) v)))

  booted-Powered : Powered booted
  booted-Powered =
      psp_kick-keeps Powered-PspKept (psp_loaded psp_cmd_start psp_start_copy_fw 0 0 valid) (
        psp_kick-keeps Powered-PspKept (psp_loaded psp_cmd_validate lo hi fw_size on)
          (smu_kick-powers off))

  hw_start-runs : drv_hw_start new_drv s ≡ drv_get_mgmt_chann_info new_drv booted
  unfolding drv_hw_start drv_fw_start is_accepted
  hw_start-runs =
      rw
        (
          smu_power aie_smu_power_off s (omega arith) refl,
          smu_power aie_smu_power_on off (omega arith) refl,
          validates,
          starts,
        )
        refl

  -- If the PSP is ready, the device is in order and the host lets the PSP read the image, then the
  -- start of the hardware by a new driver succeeds, whatever ran before: the device is powered and in
  -- order, the firmware runs, and the driver knows both rings of channel 0, which are empty.
  pub hw_starts : let r = drv_hw_start new_drv s in (r.0 ≡ true) × Up r.1 r.2
  unfolding attach
  hw_starts =
      let e = hw_start-runs ∙ attaches new_drv booted booted_state.2 in
      rw e (
        refl,
        record {
          safe = booted-Safe;
          powered = booted-Powered;
          alive = booted_state.0;
          started = booted_state.1;
          mgmt = booted_state.3;
          knows = attach-KnowsMgmt new_drv (refl, refl);
          next_id = refl;
        },
      )
