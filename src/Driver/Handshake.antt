-- ===== src/Driver/Handshake.antt =====
-- tests/test_boot.c against src/xdna_psp.c and src/xdna_smu.c: what a command of the driver does.
use xdna1_npu_emulator.Prelude.{
  ℕ, ◌^◌, ◌<◌, ◌≡◌, refl, ◌∙◌, inl, inr, false, arith, ◌==◌, if◌then◌else◌, Bool-cases,
}
use xdna1_npu_emulator.Regs.{reg_scratch2, reg_scratch3, psp_status_ready}
use xdna1_npu_emulator.State.{XdnaNpu}
use xdna1_npu_emulator.Device.{reg_bar_read}
use xdna1_npu_emulator.Psp.{xdna_psp_kick}
use xdna1_npu_emulator.Psp.Steps.{psp_kick_steps, psp_kick_response}
use xdna1_npu_emulator.Driver.{is_ready, psp_arg2, psp_result, psp_exec}
use xdna1_npu_emulator.Driver.Registers.{rd32-reg, psp_loaded, psp_set_cmd-kicks}

psp_result-posted :
    (t : XdnaNpu)
    → t.scratch 2 ≡ psp_status_ready
    → t.scratch 3 < 2 ^ 32
    → psp_result t ≡ (t.scratch 3 == 0, t)
unfolding psp_result reg_bar_read
psp_result-posted t ready word =
    rw (rd32-reg reg_scratch2 t (omega (arith, ready)))
      (rw ready (rw (rd32-reg reg_scratch3 t word) refl))

-- The arguments are 32-bit words.
pub record PspWords (cmd arg0 arg1 arg2 : ℕ) : Type 0 where
  pub cmd_word : cmd < 2 ^ 32
  pub arg0_word : arg0 < 2 ^ 32
  pub arg1_word : arg1 < 2 ^ 32
  pub arg2_word : psp_arg2 cmd arg2 < 2 ^ 32

module _ (cmd arg0 arg1 arg2 : ℕ) (s : XdnaNpu) (words : PspWords cmd arg0 arg1 arg2) where
  -- The device after the kick of the command.
  abbrev kicked : XdnaNpu
  kicked = xdna_psp_kick (psp_loaded cmd arg0 arg1 arg2 s)

  -- For arguments and a status that are 32-bit words: if the READY bit of the status is set, a command
  -- of the driver is one kick of the PSP, with the arguments in its registers, and succeeds exactly if
  -- the response is 0; otherwise it fails and changes nothing.
  pub psp_exec_outcome :
      s.scratch 2 < 2 ^ 32
      → psp_exec cmd arg0 arg1 arg2 s ≡ (
          if is_ready (s.scratch 2)
          then (let t = xdna_psp_kick (psp_loaded cmd arg0 arg1 arg2 s) in (t.scratch 3 == 0, t))
          else (false, s))
  unfolding psp_exec reg_bar_read
  psp_exec_outcome status_word =
      rw (rd32-reg reg_scratch2 s status_word) (elim (Bool-cases (is_ready (s.scratch 2))) [
        | inl set ↦
            rw
              (
                set,
                psp_set_cmd-kicks cmd arg0 arg1 arg2 s words.cmd_word words.arg0_word
                    words.arg1_word words.arg2_word,
              )
              (psp_result-posted kicked (psp_kick_steps (psp_loaded cmd arg0 arg1 arg2 s)).0
                (psp_kick_response (psp_loaded cmd arg0 arg1 arg2 s)))
        | inr clear ↦ rw clear refl
      ])

module _ (cmd arg0 arg1 arg2 : ℕ) (s : XdnaNpu) (ready : s.scratch 2 ≡ psp_status_ready)
    (words : PspWords cmd arg0 arg1 arg2) where
  pub psp_exec_kicks :
      let t = xdna_psp_kick (psp_loaded cmd arg0 arg1 arg2 s) in
      psp_exec cmd arg0 arg1 arg2 s ≡ (t.scratch 3 == 0, t)
  psp_exec_kicks =
      psp_exec_outcome cmd arg0 arg1 arg2 s words (omega (arith, ready)) ∙ rw ready refl
