-- ===== src/Psp/Steps.antt =====
-- src/xdna_psp.c as a state machine.
use xdna1_npu_emulator.Prelude.{
  ℕ, ◌^◌, ◌<◌, ◌≡◌, refl, sym, ◌∙◌, ◌⊎◌, inl, inr, Bool, true, false, not, false≢true, arith, ◌==◌,
  if◌then◌else◌, ==→eq, ==→ne, if_keeps, if_elim,
}
use xdna1_npu_emulator.Regs.{
  psp_status_ready, psp_cmd_validate, psp_cmd_start, psp_cmd_release_tmr, psp_cmd_validate_cert,
  psp_start_copy_fw, psp_error_cancel, psp_error_bad_state, sram_fw_alive_off,
}
use xdna1_npu_emulator.State.{
  XdnaPspState, cold, validated, running, XdnaNpu, log_error, log_warn, log_info, xdna_log, store,
  clear, xdna_sram_write32,
}
use xdna1_npu_emulator.Mailbox.Channel.{xdna_mbox_channel_reset, xdna_mbox_reset}
use xdna1_npu_emulator.Firmware.{
  open_mgmt, publish_info, xdna_fw_boot, drop_contexts, set_dead, xdna_fw_shutdown,
}
use xdna1_npu_emulator.Psp.{
  read_image, psp_fetch_image, psp_validate, is_validated, psp_start, psp_release, psp_run,
  count_psp, psp_paddr, psp_size, xdna_psp_kick,
}

-- What a command may do, with the response `resp`, to the PSP state `p` and the firmware: `a` and
-- `b` tell whether it is alive, before and after.
pub data PspStep (cmd resp : ℕ) (p : XdnaPspState) (a : Bool) (q : XdnaPspState) (b : Bool)
    : Type 0 where
  -- An error, after which nothing has changed.
  refused :
      (resp ≡ psp_error_cancel) ⊎ (resp ≡ psp_error_bad_state)
      → q ≡ p
      → b ≡ a
      → PspStep cmd resp p a q b
  -- An image that could be read.
  accepted : cmd ≡ psp_cmd_validate → resp ≡ 0 → q ≡ validated → b ≡ a → PspStep cmd resp p a q b
  -- A certificate that could be read.
  certified : cmd ≡ psp_cmd_validate_cert → resp ≡ 0 → q ≡ p → b ≡ a → PspStep cmd resp p a q b
  -- The firmware is started, from a validated image only.
  started :
      cmd ≡ psp_cmd_start
      → resp ≡ 0
      → p ≡ validated
      → q ≡ running
      → b ≡ true
      → PspStep cmd resp p a q b
  -- The firmware is stopped.
  released : cmd ≡ psp_cmd_release_tmr → resp ≡ 0 → q ≡ cold → b ≡ false → PspStep cmd resp p a q b

-- The state and the firmware are as before.
abbrev pub Same : XdnaNpu → XdnaNpu → Type 0
Same s t = (t.psp_state ≡ s.psp_state) × (t.fw_alive ≡ s.fw_alive)

pub log-Same : (level : ℕ) (s : XdnaNpu) → Same s (xdna_log level s)
unfolding xdna_log
log-Same level s = if_keeps (Same s) s.ops.log (refl, refl) (refl, refl)

image-Same : (paddr n : ℕ) (s : XdnaNpu) → Same s (read_image paddr n s).1
unfolding read_image
image-Same paddr n s = ground arith

fetch-Same :
    (paddr size : ℕ) (s : XdnaNpu)
    → let r = psp_fetch_image paddr size s in
      Same s r.1 × ((r.0 ≡ 0) ⊎ ((r.0 ≡ psp_error_cancel) ⊎ (r.0 ≡ psp_error_bad_state)))
unfolding psp_fetch_image read_image xdna_log
fetch-Same paddr size s = ground arith

pub boot-Same :
    (s : XdnaNpu) → ((xdna_fw_boot s).psp_state ≡ s.psp_state) × ((xdna_fw_boot s).fw_alive ≡ true)
unfolding xdna_fw_boot publish_info open_mgmt xdna_sram_write32 store clear xdna_mbox_channel_reset
    xdna_log
boot-Same s = ground arith

module _ (cmd arg0 paddr size : ℕ) (s : XdnaNpu) where
  Stepped : ℕ × XdnaNpu → Type 0
  Stepped r = PspStep cmd r.0 s.psp_state s.fw_alive r.1.psp_state r.1.fw_alive

  bad_state : (level : ℕ) → Stepped (psp_error_bad_state, xdna_log level s)
  unfolding Stepped
  bad_state level = let l = log-Same level s in refused (inr refl) l.0 l.1

  validate_steps : cmd ≡ psp_cmd_validate → Stepped (psp_validate paddr size s)
  unfolding psp_validate Stepped
  validate_steps is =
      let f = psp_fetch_image paddr size s in
      let k = fetch-Same paddr size s in
      let l =
        log-Same log_info
          (record f.1 { fw_paddr = paddr; fw_size = size; psp_state = validated }) in
      if_elim Stepped (f.0 == 0) (λ e. accepted is (==→eq f.0 0 e) l.0 (l.1 ∙ k.0.1))
        (λ e. elim k.1 [
          | inl zero_resp ↦ absurd (==→ne f.0 0 e zero_resp)
          | inr error ↦ refused error k.0.0 k.0.1
        ])

  certificate_steps : cmd ≡ psp_cmd_validate_cert → Stepped (psp_fetch_image paddr size s)
  unfolding Stepped
  certificate_steps is =
      let k = fetch-Same paddr size s in
      elim k.1 [
        | inl zero_resp ↦ certified is zero_resp k.0.0 k.0.1
        | inr error ↦ refused error k.0.0 k.0.1
      ]

  start_steps : cmd ≡ psp_cmd_start → Stepped (psp_start arg0 s)
  unfolding psp_start Stepped
  start_steps is =
      if_elim Stepped (not (is_validated s.psp_state)) (λ _. bad_state log_error)
        (λ e.
          let s' : XdnaNpu = if arg0 == psp_start_copy_fw then s else xdna_log log_warn s in
          let b = boot-Same (record s' { psp_state = running }) in
          started is refl (was_validated s.psp_state e) b.0 b.1)
    where
      was_validated : (p : XdnaPspState) → not (is_validated p) ≡ false → p ≡ validated
      was_validated cold e = absurd (false≢true (sym e))
      was_validated validated e = refl
      was_validated running e = absurd (false≢true (sym e))

  release_steps : cmd ≡ psp_cmd_release_tmr → Stepped (psp_release s)
  unfolding xdna_fw_shutdown Stepped
  release_steps is =
      released is refl refl
        (log-Same log_info
          (set_dead (xdna_sram_write32 sram_fw_alive_off 0 (xdna_mbox_reset (drop_contexts s))))).1

  run_steps : Stepped (psp_run cmd arg0 paddr size s)
  unfolding psp_run
  run_steps =
      if_elim Stepped (cmd == psp_cmd_validate) (λ e. validate_steps (==→eq cmd _ e))
        λ _.
          if_elim Stepped (cmd == psp_cmd_validate_cert) (λ e. certificate_steps (==→eq cmd _ e))
            λ _.
              if_elim Stepped (cmd == psp_cmd_start) (λ e. start_steps (==→eq cmd _ e))
                λ _.
                  if_elim Stepped (cmd == psp_cmd_release_tmr) (λ e. release_steps (==→eq cmd _ e))
                    λ _. bad_state log_error

-- A command leaves the status register at READY and its response in the response register, and
-- takes a step of the state machine: so the firmware runs only from a validated image, and a
-- refused command changes neither the state nor the firmware.
pub psp_kick_steps :
    (s : XdnaNpu)
    → let t = xdna_psp_kick s in
      (t.scratch 2 ≡ psp_status_ready)
      × PspStep (s.scratch 2) (t.scratch 3) s.psp_state s.fw_alive t.psp_state t.fw_alive
unfolding xdna_psp_kick Stepped
psp_kick_steps s =
    (refl, run_steps (s.scratch 2) (s.scratch 3) (psp_paddr s) (psp_size s) (count_psp s))

-- A response is 0 or one of the two error codes, and so a 32-bit word.
pub psp_kick_response : (s : XdnaNpu) → (xdna_psp_kick s).scratch 3 < 2 ^ 32
psp_kick_response s = elim (psp_kick_steps s).1 [
  | refused e _ _ ↦ elim e [ inl a ↦ omega (arith, a) | inr b ↦ omega (arith, b) ]
  | accepted _ e _ _ ↦ omega (arith, e)
  | certified _ e _ _ ↦ omega (arith, e)
  | started _ e _ _ _ ↦ omega (arith, e)
  | released _ e _ _ ↦ omega (arith, e)
]
