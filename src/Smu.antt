-- ===== src/Smu.antt =====
-- src/xdna_smu.c: power and clock commands.
pub mod Settings
pub mod Kept
use xdna1_npu_emulator.Prelude.{ℕ, true, false, ◌||◌, ltb, ◌==◌, if◌then◌else◌, add64}
use xdna1_npu_emulator.Regs.{
  smu_result_ok, aie_smu_power_on, aie_smu_power_off, aie_smu_set_mpnpuclk_freq,
  aie_smu_set_hclk_freq, aie_smu_set_soft_dpmlevel, aie_smu_set_hard_dpmlevel, npu1_max_dpm_level,
}
use xdna1_npu_emulator.State.{XdnaNpu, update, log_error, log_info, xdna_log}

abbrev pub smu_result_fail : ℕ
smu_result_fail = 2

abbrev pub smu_complete : ℕ → ℕ → XdnaNpu → XdnaNpu
smu_complete resp out s = record s { scratch = update (update s.scratch 7 out) 6 resp }

-- The `switch` of `xdna_smu_kick`.
unfoldable pub smu_run : ℕ → ℕ → XdnaNpu → XdnaNpu
smu_run cmd arg s =
    if cmd == aie_smu_power_on
    then smu_complete smu_result_ok 0 (xdna_log log_info (record s { power_on = true }))
    else if cmd == aie_smu_power_off
    then smu_complete smu_result_ok 0 (xdna_log log_info (record s { power_on = false }))
    else if cmd == aie_smu_set_mpnpuclk_freq
    then smu_complete smu_result_ok arg (record s { npuclk = arg })
    else if cmd == aie_smu_set_hclk_freq
    then smu_complete smu_result_ok arg (record s { hclk = arg })
    else if cmd == aie_smu_set_soft_dpmlevel || cmd == aie_smu_set_hard_dpmlevel
    then (if ltb npu1_max_dpm_level arg
        then smu_complete smu_result_fail 0 (xdna_log log_error s)
        else smu_complete smu_result_ok arg (record s { dpm_level = arg }))
    else smu_complete smu_result_fail 0 (xdna_log log_error s)

abbrev pub count_smu : XdnaNpu → XdnaNpu
count_smu s = record s { stats = record s.stats { smu_cmds = add64 s.stats.smu_cmds 1 } }

unfoldable pub xdna_smu_kick : XdnaNpu → XdnaNpu
xdna_smu_kick s = smu_run (s.scratch 5) (s.scratch 7) (count_smu s)
