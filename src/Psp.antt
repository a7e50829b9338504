-- ===== src/Psp.antt =====
-- src/xdna_psp.c: loading, starting and releasing the firmware.
pub mod Kept
pub mod Steps
use xdna1_npu_emulator.Prelude.{
  ℕ, ◌*◌, ◌^◌, bit_and, bit_or, Bool, true, false, not, none, some, ltb, ◌==◌, if◌then◌else◌, add64,
}
use xdna1_npu_emulator.Regs.{
  psp_status_ready, psp_cmd_validate, psp_cmd_start, psp_cmd_release_tmr, psp_cmd_validate_cert,
  psp_start_copy_fw, psp_error_cancel, psp_error_bad_state, psp_arg2_mask,
}
use xdna1_npu_emulator.State.{
  read_phys, read, XdnaPspState, cold, validated, running, XdnaNpu, update, log_error, log_warn,
  log_info, emit, xdna_log,
}
use xdna1_npu_emulator.Firmware.{xdna_fw_boot, xdna_fw_shutdown}

-- `PSP_PEEK_BYTES`
abbrev pub psp_peek_bytes : ℕ
psp_peek_bytes = 64

abbrev pub psp_complete : ℕ → XdnaNpu → XdnaNpu
psp_complete resp s = record s { scratch = update (update s.scratch 3 resp) 2 psp_status_ready }

-- The read callback that is used: the physical one if the host has it.
unfoldable pub read_image : ℕ → ℕ → XdnaNpu → Bool × XdnaNpu
read_image paddr n s = elim s.ops.dma_read_phys [
  | some read_dma ↦ (read_dma s.host paddr n, emit (read_phys paddr n) s)
  | none ↦ elim s.ops.dma_read [
    | some read_dma ↦ (read_dma s.host paddr n, emit (read paddr n) s)
    | none ↦ (false, s)
  ]
]

-- The error code, 0 for an image that could be read.
unfoldable pub psp_fetch_image : ℕ → ℕ → XdnaNpu → ℕ × XdnaNpu
psp_fetch_image paddr size s =
    let n = if ltb size psp_peek_bytes then size else psp_peek_bytes in
    if size == 0
    then (psp_error_bad_state, s)
    else let (done, s') = read_image paddr n s in
      if done then (0, s') else (psp_error_cancel, xdna_log log_error s')

abbrev pub accept_image : ℕ → ℕ → XdnaNpu → XdnaNpu
accept_image paddr size s =
    xdna_log log_info (record s { fw_paddr = paddr; fw_size = size; psp_state = validated })

unfoldable pub psp_validate : ℕ → ℕ → XdnaNpu → ℕ × XdnaNpu
psp_validate paddr size s =
    let (resp, s') = psp_fetch_image paddr size s in
    if resp == 0 then (resp, accept_image paddr size s') else (resp, s')

abbrev pub is_validated : XdnaPspState → Bool
is_validated validated = true
is_validated _ = false

unfoldable pub psp_start : ℕ → XdnaNpu → ℕ × XdnaNpu
psp_start arg0 s =
    if not (is_validated s.psp_state)
    then (psp_error_bad_state, xdna_log log_error s)
    else let s' = if arg0 == psp_start_copy_fw then s else xdna_log log_warn s in
      (0, xdna_fw_boot (record s' { psp_state = running }))

abbrev pub psp_release : XdnaNpu → ℕ × XdnaNpu
psp_release s = (0, record (xdna_fw_shutdown s) { psp_state = cold })

-- The `switch` of `xdna_psp_kick`: the response, and the device before it is posted.
unfoldable pub psp_run : ℕ → ℕ → ℕ → ℕ → XdnaNpu → ℕ × XdnaNpu
psp_run cmd arg0 paddr size s =
    if cmd == psp_cmd_validate
    then psp_validate paddr size s
    else if cmd == psp_cmd_validate_cert
    then psp_fetch_image paddr size s
    else if cmd == psp_cmd_start
    then psp_start arg0 s
    else if cmd == psp_cmd_release_tmr
    then psp_release s
    else (psp_error_bad_state, xdna_log log_error s)

abbrev pub count_psp : XdnaNpu → XdnaNpu
count_psp s = record s { stats = record s.stats { psp_cmds = add64 s.stats.psp_cmds 1 } }

abbrev pub psp_paddr : XdnaNpu → ℕ
psp_paddr s = bit_or (s.scratch 4 * 2 ^ 32) (s.scratch 3)

abbrev pub psp_size : XdnaNpu → ℕ
psp_size s = bit_and (s.scratch 9) psp_arg2_mask

unfoldable pub xdna_psp_kick : XdnaNpu → XdnaNpu
xdna_psp_kick s =
    let (resp, s') = psp_run (s.scratch 2) (s.scratch 3) (psp_paddr s) (psp_size s) (count_psp s) in
    psp_complete resp s'
