-- ===== src/Psp/Kept.antt =====
-- A property that every effect of a PSP command keeps is kept by the command.
use xdna1_npu_emulator.Prelude.{
  ℕ, Bool, false, not, Option, none, some, List, ltb, ◌==◌, if◌then◌else◌, if_keeps,
}
use xdna1_npu_emulator.Regs.{
  psp_cmd_validate, psp_cmd_start, psp_cmd_release_tmr, psp_cmd_validate_cert, psp_start_copy_fw,
}
use xdna1_npu_emulator.State.{
  HostEvent, read_phys, read, validated, running, XdnaNpu, log_error, log_warn, log_info, emit,
  xdna_log,
}
use xdna1_npu_emulator.Firmware.{xdna_fw_boot}
use xdna1_npu_emulator.Psp.{
  psp_peek_bytes, read_image, psp_fetch_image, psp_validate, is_validated, psp_start, psp_release,
  psp_run, count_psp, psp_paddr, psp_size, xdna_psp_kick,
}

pub record PspKept (P : XdnaNpu → Type 0) : Type 0 where
  pub log : (level : ℕ) (s : XdnaNpu) → P s → P (xdna_log level s)
  pub asked : (paddr n : ℕ) (s : XdnaNpu) → P s → P (emit (read paddr n) s)
  pub asked_phys : (paddr n : ℕ) (s : XdnaNpu) → P s → P (emit (read_phys paddr n) s)
  pub accept :
      (paddr size : ℕ) (s : XdnaNpu)
      → P s
      → P (record s { fw_paddr = paddr; fw_size = size; psp_state = validated })
  pub boot : (s : XdnaNpu) → P s → P (xdna_fw_boot (record s { psp_state = running }))
  pub release : (s : XdnaNpu) → P s → P (psp_release s).1
  pub regs : (f : ℕ → ℕ) (s : XdnaNpu) → P s → P (record s { scratch = f })
  pub count : (s : XdnaNpu) → P s → P (count_psp s)

module _ {P : XdnaNpu → Type 0} (k : PspKept P) where
  -- The result of a command, whatever the response.
  Left : ℕ × XdnaNpu → Type 0
  Left r = P r.1

  image-keeps : (paddr n : ℕ) (s : XdnaNpu) → P s → P (read_image paddr n s).1
  unfolding read_image
  image-keeps paddr n s p = with_phys s.ops.dma_read_phys
    where
      plain :
          (o : Option (List HostEvent → ℕ → ℕ → Bool))
          → P
              (elim o as (λ x. Bool × XdnaNpu) [
                | some read_dma ↦ (read_dma s.host paddr n, emit (read paddr n) s)
                | none ↦ (false, s)
              ]).1
      plain none = p
      plain (some f) = k.asked paddr n s p

      with_phys :
          (o : Option (List HostEvent → ℕ → ℕ → Bool))
          → P
              (elim o as (λ x. Bool × XdnaNpu) [
                | some read_dma ↦ (read_dma s.host paddr n, emit (read_phys paddr n) s)
                | none ↦ elim s.ops.dma_read [
                  | some read_dma ↦ (read_dma s.host paddr n, emit (read paddr n) s)
                  | none ↦ (false, s)
                ]
              ]).1
      with_phys none = plain s.ops.dma_read
      with_phys (some f) = k.asked_phys paddr n s p

  fetch-keeps : (paddr size : ℕ) (s : XdnaNpu) → P s → Left (psp_fetch_image paddr size s)
  unfolding psp_fetch_image Left
  fetch-keeps paddr size s p = if_keeps Left (size == 0) p (
      if_keeps Left (read_image paddr n s).0 (image-keeps paddr n s p)
        (k.log log_error (read_image paddr n s).1 (image-keeps paddr n s p)))
    where
      n : ℕ
      n = if ltb size psp_peek_bytes then size else psp_peek_bytes

  validate-keeps : (paddr size : ℕ) (s : XdnaNpu) → P s → Left (psp_validate paddr size s)
  unfolding psp_validate Left
  validate-keeps paddr size s p =
      let f = psp_fetch_image paddr size s in
      let q : P f.1 = fetch-keeps paddr size s p in
      if_keeps Left (f.0 == 0) (k.log log_info _ (k.accept paddr size f.1 q)) q

  start-keeps : (arg0 : ℕ) (s : XdnaNpu) → P s → Left (psp_start arg0 s)
  unfolding psp_start Left
  start-keeps arg0 s p =
      if_keeps Left (not (is_validated s.psp_state)) (k.log log_error s p)
        (k.boot _ (if_keeps P (arg0 == psp_start_copy_fw) p (k.log log_warn s p)))

  run-keeps : (cmd arg0 paddr size : ℕ) (s : XdnaNpu) → P s → Left (psp_run cmd arg0 paddr size s)
  unfolding psp_run Left
  run-keeps cmd arg0 paddr size s p =
      if_keeps Left (cmd == psp_cmd_validate) (validate-keeps paddr size s p) (
        if_keeps Left (cmd == psp_cmd_validate_cert) (fetch-keeps paddr size s p) (
          if_keeps Left (cmd == psp_cmd_start) (start-keeps arg0 s p)
            (if_keeps Left (cmd == psp_cmd_release_tmr) (k.release s p) (k.log log_error s p))))

  pub psp_kick-keeps : (s : XdnaNpu) → P s → P (xdna_psp_kick s)
  unfolding xdna_psp_kick Left
  psp_kick-keeps s p =
      let r = psp_run (s.scratch 2) (s.scratch 3) (psp_paddr s) (psp_size s) (count_psp s) in
      k.regs _ r.1 (
        run-keeps (s.scratch 2) (s.scratch 3) (psp_paddr s) (psp_size s) (count_psp s)
          (k.count s p))
