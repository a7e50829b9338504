-- ===== src/Driver/Boot.antt =====
-- tests/test_boot.c: loading and starting the firmware, from the driver's side.
use xdna1_npu_emulator.Prelude.{ℕ, ◌≡◌, refl, ◌≢◌, true, arith, ltb, if◌then◌else◌, eq→==, ne→==}
use xdna1_npu_emulator.Regs.{psp_status_ready, psp_cmd_validate, psp_cmd_start, psp_start_copy_fw}
use xdna1_npu_emulator.State.{XdnaHostOps, validated, running, XdnaNpu, log_info}
use xdna1_npu_emulator.Psp.{
  psp_peek_bytes, read_image, psp_fetch_image, psp_validate, psp_start, psp_run, count_psp,
  psp_paddr, psp_size, xdna_psp_kick,
}
use xdna1_npu_emulator.Psp.Steps.{log-Same, boot-Same}
use xdna1_npu_emulator.Driver.{psp_exec}
use xdna1_npu_emulator.Driver.Registers.{psp_loaded}
use xdna1_npu_emulator.Driver.Handshake.{PspWords, psp_exec_kicks}
use xdna1_npu_emulator.Firmware.{xdna_fw_boot}
use xdna1_npu_emulator.Firmware.Boot.{mgmt_channel, boot_chan, Published, boot_publishes}

-- The host lets the PSP read `n` bytes at `paddr`.
abbrev pub CanRead : XdnaHostOps → ℕ → ℕ → Type 0
CanRead ops paddr n = (u : XdnaNpu) → u.ops ≡ ops → (read_image paddr n u).0 ≡ true

-- How much of an image the PSP reads.
abbrev pub peek_size : ℕ → ℕ
peek_size size = if ltb size psp_peek_bytes then size else psp_peek_bytes

-- VALIDATE of an image that is not empty and can be read.
validate_ok :
    (paddr size : ℕ) (u : XdnaNpu)
    → size ≢ 0
    → CanRead u.ops paddr (peek_size size)
    → let r = psp_validate paddr size u in (r.0 ≡ 0) × (r.1.psp_state ≡ validated)
unfolding psp_validate psp_fetch_image
validate_ok paddr size u some_bytes reads =
    let read = read_image paddr (peek_size size) u in
    rw (ne→== size 0 some_bytes, reads u refl)
      (
        refl,
        (log-Same log_info
            (record read.1 { fw_paddr = paddr; fw_size = size; psp_state = validated })).0,
      )

-- START of a validated image.
start_ok :
    (u : XdnaNpu)
    → u.psp_state ≡ validated
    → psp_start psp_start_copy_fw u ≡ (0, xdna_fw_boot (record u { psp_state = running }))
unfolding psp_start
start_ok u e = rw e refl

-- START of a validated image, from the driver's side.
pub started_by :
    (t : XdnaNpu)
    → t.scratch 2 ≡ psp_status_ready
    → t.psp_state ≡ validated
    → let b = psp_exec psp_cmd_start psp_start_copy_fw 0 0 t in
      (b.0 ≡ true)
      × (b.1.fw_alive ≡ true)
      × (b.1.psp_state ≡ running)
      × Published b.1
      × (b.1.chan 0 ≡ mgmt_channel)
unfolding xdna_psp_kick psp_run
started_by t ok e =
    let l = psp_loaded psp_cmd_start psp_start_copy_fw 0 0 t in
    let u : XdnaNpu = record (count_psp l) { psp_state = running } in
    let same = boot-Same u in
    let p = boot_publishes u in
    rw
      (psp_exec_kicks psp_cmd_start psp_start_copy_fw 0 0 t ok (record {
        cmd_word = omega arith;
        arg0_word = omega arith;
        arg1_word = omega arith;
        arg2_word = omega arith;
      }))
      (rw (start_ok (count_psp l) e) (
        refl,
        same.1,
        same.0,
        record {
          pointer = p.pointer;
          info = p.info;
          x2i_buf = p.x2i_buf;
          x2i_size = p.x2i_size;
          i2x_buf = p.i2x_buf;
          i2x_size = p.i2x_size;
          active = p.active;
          x2i_empty = p.x2i_empty;
          i2x_empty = p.i2x_empty;
          cleared = p.cleared;
        },
        boot_chan u,
      ))

module _ (lo hi size : ℕ) (s : XdnaNpu) (ready : s.scratch 2 ≡ psp_status_ready)
    (words : PspWords psp_cmd_validate lo hi size)
    (some_bytes : psp_size (psp_loaded psp_cmd_validate lo hi size s) ≢ 0) where
  abbrev l : XdnaNpu
  l = psp_loaded psp_cmd_validate lo hi size s

  pub validated_by :
      CanRead s.ops (psp_paddr l) (peek_size (psp_size l))
      → let a = psp_exec psp_cmd_validate lo hi size s in
        (a.0 ≡ true) × (a.1.psp_state ≡ validated) × (a.1.scratch 2 ≡ psp_status_ready)
  unfolding xdna_psp_kick psp_run
  validated_by reads =
      let v = validate_ok (psp_paddr l) (psp_size l) (count_psp l) some_bytes reads in
      rw (psp_exec_kicks psp_cmd_validate lo hi size s ready words) (eq→== _ 0 v.0, v.1, refl)

  -- If the PSP is ready, the arguments are 32-bit words, the size that the PSP reads is not 0 and the
  -- host lets it read the start of the image at the address that it reads, then the driver's VALIDATE and START both succeed, in whatever state
  -- the device was, and afterwards the firmware runs and has published the management channel.
  pub driver_boots :
      CanRead s.ops (psp_paddr l) (peek_size (psp_size l))
      → let a = psp_exec psp_cmd_validate lo hi size s in
        let b = psp_exec psp_cmd_start psp_start_copy_fw 0 0 a.1 in
        (a.0 ≡ true)
        × (b.0 ≡ true)
        × (b.1.fw_alive ≡ true)
        × (b.1.psp_state ≡ running)
        × Published b.1
  driver_boots reads =
      let v = validated_by reads in
      let a = psp_exec psp_cmd_validate lo hi size s in
      let r = started_by a.1 v.2 v.1 in (v.0, r.0, r.1, r.2, r.3)
