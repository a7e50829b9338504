-- ===== src/Smu/Kept.antt =====
-- A property that every effect of an SMU command keeps is kept by the command.
use xdna1_npu_emulator.Prelude.{
  ℕ, ◌≤◌, Bool, true, false, ◌||◌, ltb, ◌==◌, ltb→le, if_keeps, if_elim,
}
use xdna1_npu_emulator.Regs.{
  smu_result_ok, aie_smu_power_on, aie_smu_power_off, aie_smu_set_mpnpuclk_freq,
  aie_smu_set_hclk_freq, aie_smu_set_soft_dpmlevel, aie_smu_set_hard_dpmlevel, npu1_max_dpm_level,
}
use xdna1_npu_emulator.State.{XdnaNpu, log_error, log_info, xdna_log}
use xdna1_npu_emulator.Smu.{smu_result_fail, smu_complete, smu_run, count_smu, xdna_smu_kick}

pub record SmuKept (P : XdnaNpu → Type 0) : Type 0 where
  pub log : (level : ℕ) (s : XdnaNpu) → P s → P (xdna_log level s)
  pub power : (on : Bool) (s : XdnaNpu) → P s → P (record s { power_on = on })
  pub npuclk : (v : ℕ) (s : XdnaNpu) → P s → P (record s { npuclk = v })
  pub hclk : (v : ℕ) (s : XdnaNpu) → P s → P (record s { hclk = v })
  pub dpm :
      (level : ℕ) (s : XdnaNpu)
      → level ≤ npu1_max_dpm_level
      → P s
      → P (record s { dpm_level = level })
  pub regs : (f : ℕ → ℕ) (s : XdnaNpu) → P s → P (record s { scratch = f })
  pub count : (s : XdnaNpu) → P s → P (count_smu s)

module _ {P : XdnaNpu → Type 0} (k : SmuKept P) where
  refused-keeps : (s : XdnaNpu) → P s → P (smu_complete smu_result_fail 0 (xdna_log log_error s))
  refused-keeps s p = k.regs _ _ (k.log log_error s p)

  powered-keeps :
      (on : Bool) (s : XdnaNpu)
      → P s
      → P (smu_complete smu_result_ok 0 (xdna_log log_info (record s { power_on = on })))
  powered-keeps on s p = k.regs _ _ (k.log log_info _ (k.power on s p))

  smu_run-keeps : (cmd arg : ℕ) (s : XdnaNpu) → P s → P (smu_run cmd arg s)
  unfolding smu_run
  smu_run-keeps cmd arg s p = if_keeps P (cmd == aie_smu_power_on) (powered-keeps true s p) (
      if_keeps P (cmd == aie_smu_power_off) (powered-keeps false s p) (
        if_keeps P (cmd == aie_smu_set_mpnpuclk_freq) (k.regs _ _ (k.npuclk arg s p)) (
          if_keeps P (cmd == aie_smu_set_hclk_freq) (k.regs _ _ (k.hclk arg s p)) (
            if_keeps P (cmd == aie_smu_set_soft_dpmlevel || cmd == aie_smu_set_hard_dpmlevel)
              (if_elim P (ltb npu1_max_dpm_level arg) (λ _. refused-keeps s p)
                (λ e. k.regs _ _ (k.dpm arg s (ltb→le npu1_max_dpm_level arg e) p)))
              (refused-keeps s p)))))

  pub smu_kick-keeps : (s : XdnaNpu) → P s → P (xdna_smu_kick s)
  unfolding xdna_smu_kick
  smu_kick-keeps s p = smu_run-keeps (s.scratch 5) (s.scratch 7) (count_smu s) (k.count s p)
