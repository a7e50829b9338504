-- ===== src/Smu/Settings.antt =====
-- src/xdna_smu.c: which commands are accepted, and what they change.
use xdna1_npu_emulator.Prelude.{
  ℕ, ◌≡◌, ◌⊎◌, Bool, true, false, ◌&&◌, ◌||◌, arith, leb, ◌==◌, if◌then◌else◌,
}
use xdna1_npu_emulator.Regs.{smu_result_ok}
use xdna1_npu_emulator.State.{XdnaNpu, xdna_log}
use xdna1_npu_emulator.Smu.{smu_result_fail, smu_run, xdna_smu_kick}

-- The commands 3 to 8 are known, and the levels of 7 and 8 go up to 7.
unfoldable pub is_accepted : ℕ → ℕ → Bool
is_accepted cmd arg = leb 3 cmd && leb cmd 8 && (leb cmd 6 || leb arg 7)

-- Every command is answered: OK if it is known and its level in range, the failure code otherwise.
pub smu_kick_responds :
    (s : XdnaNpu)
    → (xdna_smu_kick s).scratch 6
      ≡ (if is_accepted (s.scratch 5) (s.scratch 7) then smu_result_ok else smu_result_fail)
unfolding xdna_smu_kick smu_run is_accepted xdna_log
smu_kick_responds s = ground arith

-- The power state, the two clocks and the DPM level change on their own commands only, the level
-- only to one in range.
pub smu_kick_sets :
    (s : XdnaNpu)
    → let cmd = s.scratch 5 in
      let arg = s.scratch 7 in
      let t = xdna_smu_kick s in
      (t.power_on ≡ (if cmd == 3 then true else if cmd == 4 then false else s.power_on))
      × (t.npuclk ≡ (if cmd == 5 then arg else s.npuclk))
      × (t.hclk ≡ (if cmd == 6 then arg else s.hclk))
      × (t.dpm_level ≡ (if (cmd == 7 || cmd == 8) && leb arg 7 then arg else s.dpm_level))
unfolding xdna_smu_kick smu_run xdna_log
smu_kick_sets s = ground arith

-- The OUT register, which is the argument register too, keeps the argument or is set to 0.
pub smu_kick_out :
    (s : XdnaNpu) → ((xdna_smu_kick s).scratch 7 ≡ 0) ⊎ ((xdna_smu_kick s).scratch 7 ≡ s.scratch 7)
unfolding xdna_smu_kick smu_run xdna_log
smu_kick_out s = ground arith
