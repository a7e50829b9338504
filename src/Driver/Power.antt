-- ===== src/Driver/Power.antt =====
-- tests/test_boot.c against src/xdna_smu.c: what an SMU command of the driver does.
use xdna1_npu_emulator.Prelude.{
  ℕ, ◌^◌, ◌<◌, ◌≡◌, refl, ap, ◌∙◌, ◌≢◌, inl, inr, Bool, arith, if◌then◌else◌, Bool-cases,
}
use xdna1_npu_emulator.Regs.{
  reg_pub_pwrmgmt_ir, reg_scratch5, reg_scratch6, reg_scratch7, smu_result_ok,
}
use xdna1_npu_emulator.State.{XdnaNpu, update}
use xdna1_npu_emulator.Device.{reg_bar_read, reg_bar_write}
use xdna1_npu_emulator.Smu.{smu_result_fail, xdna_smu_kick}
use xdna1_npu_emulator.Smu.Settings.{is_accepted, smu_kick_responds, smu_kick_out}
use xdna1_npu_emulator.Driver.{smu_set_cmd, smu_exec}
use xdna1_npu_emulator.Driver.Registers.{wr32-reg, rd32-reg}

-- The device when the SMU is kicked, with the command in its registers.
abbrev pub smu_loaded : ℕ → ℕ → XdnaNpu → XdnaNpu
smu_loaded cmd arg s = record s {
  scratch = update (update (update s.scratch 6 0) 7 arg) 5 cmd;
  pwrmgmt_intr = 1;
}

smu_set_cmd-kicks :
    (cmd arg : ℕ) (s : XdnaNpu)
    → cmd < 2 ^ 32
    → arg < 2 ^ 32
    → smu_set_cmd cmd arg s ≡ xdna_smu_kick (smu_loaded cmd arg s)
unfolding smu_set_cmd reg_bar_write
smu_set_cmd-kicks cmd arg s a b = rw (wr32-reg reg_scratch6 0 s (omega arith)) (
    rw
      (
        wr32-reg reg_scratch7 arg _ b,
        wr32-reg reg_scratch5 cmd _ a,
        wr32-reg reg_pub_pwrmgmt_ir 0 _ (omega arith),
        wr32-reg reg_pub_pwrmgmt_ir 1 _ (omega arith),
      )
      refl)

-- A command of the driver, with 32-bit words, never times out: it is one kick of the SMU, with the
-- command and the argument in its registers, and succeeds exactly if the command is known and its
-- level in range.
pub smu_exec_kicks :
    (cmd arg : ℕ) (s : XdnaNpu)
    → cmd < 2 ^ 32
    → arg < 2 ^ 32
    → let t = xdna_smu_kick (smu_loaded cmd arg s) in
      let r = smu_exec cmd arg s in (t.scratch 6 ≢ 0) × (r ≡ (is_accepted cmd arg, t.scratch 7, t))
unfolding smu_exec reg_bar_read
smu_exec_kicks cmd arg s a b =
    let t = xdna_smu_kick (smu_loaded cmd arg s) in
    let resp = smu_kick_responds (smu_loaded cmd arg s) in
    let out = smu_kick_out (smu_loaded cmd arg s) in
    let out_word : t.scratch 7 < 2 ^ 32 = elim out [
      | inl e ↦ omega (arith, e)
      | inr e ↦ omega (arith, e)
    ] in
    elim (Bool-cases (is_accepted cmd arg)) [
      | inl known ↦
          let ok : t.scratch 6 ≡ 1 =
            resp ∙ ap (λ (x : Bool). if x then smu_result_ok else smu_result_fail) known in
          (
            λ e. absurd (omega (arith, ok, e)),
            rw
                (
                  smu_set_cmd-kicks cmd arg s a b,
                  rd32-reg reg_scratch6 t (omega (arith, ok)),
                  ok,
                  rd32-reg reg_scratch7 t out_word,
                  known,
                )
                refl,
          )
      | inr unknown ↦
          let bad : t.scratch 6 ≡ 2 =
            resp ∙ ap (λ (x : Bool). if x then smu_result_ok else smu_result_fail) unknown in
          (
            λ e. absurd (omega (arith, bad, e)),
            rw
                (
                  smu_set_cmd-kicks cmd arg s a b,
                  rd32-reg reg_scratch6 t (omega (arith, bad)),
                  bad,
                  rd32-reg reg_scratch7 t out_word,
                  unknown,
                )
                refl,
          )
    ]
