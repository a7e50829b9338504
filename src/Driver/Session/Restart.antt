-- ===== src/Driver/Session/Restart.antt =====
-- tests/test_boot.c against src/xdna_fw.c: the driver releases the firmware, and starts it again.
use xdna1_npu_emulator.Prelude.{
  ℕ, ◌<◌, ◌≡◌, refl, ap, ◌∙◌, true, false, arith, ◌==◌, le_value, u32_bytes,
}
use xdna1_npu_emulator.Regs.{
  psp_status_ready, psp_cmd_release_tmr, sram_fw_alive_off, npu1_hwctx_limit,
}
use xdna1_npu_emulator.Psp.{
  psp_peek_bytes, psp_complete, psp_release, psp_run, count_psp, xdna_psp_kick,
}
use xdna1_npu_emulator.Driver.Session.{fw_paddr, new_drv, drv_hw_start}
use xdna1_npu_emulator.Invariant.Power.{released, release-keeps}
use xdna1_npu_emulator.Mem.{read_bytes}
use xdna1_npu_emulator.Mem.Laws.{read_bytes-write_bytes}
use xdna1_npu_emulator.State.{
  HostEvent, XdnaHostOps, XdnaChannel, cold, XdnaNpu, max_channels, log_info, emit, store, clear,
  xdna_sram_write32,
}
use xdna1_npu_emulator.Psp.Kept.{PspKept, psp_kick-keeps}
use xdna1_npu_emulator.Psp.Steps.{psp_kick_steps}
use xdna1_npu_emulator.Firmware.{open_mgmt, publish_info, xdna_fw_boot, xdna_fw_shutdown}
use xdna1_npu_emulator.Invariant.{Safe}
use xdna1_npu_emulator.Invariant.Basic.{xdna_log-keeps}
use xdna1_npu_emulator.Invariant.Reset.{all_reset-at, invalidate-at}
use xdna1_npu_emulator.Invariant.Commands.{psp_kick-Safe}
use xdna1_npu_emulator.Mailbox.Channel.{xdna_mbox_channel_reset, reset_from, xdna_mbox_reset}
use xdna1_npu_emulator.Driver.{psp_exec}
use xdna1_npu_emulator.Driver.Registers.{psp_loaded}
use xdna1_npu_emulator.Driver.Handshake.{psp_exec_kicks}
use xdna1_npu_emulator.Driver.Boot.{CanRead}
use xdna1_npu_emulator.Driver.Receive.{Drv}
use xdna1_npu_emulator.Driver.Send.Feed.{sram_read32}
use xdna1_npu_emulator.Driver.Attach.{drv_get_mgmt_chann_info}
use xdna1_npu_emulator.Driver.Session.Start.{Up, hw_starts}

-- Nothing of the firmware is left: it is stopped, FW_ALIVE is 0, no channel is open, no context is
-- valid and no column is in use.
pub record Down (t : XdnaNpu) : Type 0 where
  pub stopped : t.fw_alive ≡ false
  pub psp_cold : t.psp_state ≡ cold
  pub alive_word : le_value (read_bytes t.sram sram_fw_alive_off 4) ≡ 0
  pub closed : (i : ℕ) → i < max_channels → (t.chan i).active ≡ false
  pub dropped : (k : ℕ) → k < npu1_hwctx_limit → (t.ctx k).valid ≡ false
  pub unused : t.col_used ≡ 0

released-Down : (s : XdnaNpu) → Down (released s)
unfolding xdna_sram_write32 store
released-Down s = record {
  stopped = refl;
  psp_cold = refl;
  alive_word = ap le_value (read_bytes-write_bytes s.sram sram_fw_alive_off (u32_bytes 0));
  closed = λ i h. ap (λ (c : XdnaChannel). c.active) (all_reset-at s.chan i h);
  dropped = λ k h. invalidate-at 0 npu1_hwctx_limit s.ctx k (omega arith) (omega arith);
  unused = refl;
}

-- The properties of `Down` do not look at the registers.
regs-Down : (f : ℕ → ℕ) (t : XdnaNpu) → Down t → Down (record t { scratch = f })
regs-Down f t d = record {
  stopped = d.stopped;
  psp_cold = d.psp_cold;
  alive_word = d.alive_word;
  closed = d.closed;
  dropped = d.dropped;
  unused = d.unused;
}

emit-Down : (e : HostEvent) (t : XdnaNpu) → Down t → Down (emit e t)
emit-Down e t d = record {
  stopped = d.stopped;
  psp_cold = d.psp_cold;
  alive_word = d.alive_word;
  closed = d.closed;
  dropped = d.dropped;
  unused = d.unused;
}

-- The callbacks of the host stay the same under every command of the PSP.
module _ (ops : XdnaHostOps) where
  abbrev HasOps : XdnaNpu → Type 0
  HasOps t = t.ops ≡ ops

  HasOps-PspKept : PspKept HasOps
  unfolding xdna_fw_shutdown xdna_fw_boot publish_info open_mgmt xdna_sram_write32 store clear
      xdna_mbox_channel_reset xdna_mbox_reset reset_from
  HasOps-PspKept = record {
    log = λ level s p. xdna_log-keeps HasOps level s p p;
    asked = λ paddr n s p. p;
    asked_phys = λ paddr n s p. p;
    accept = λ paddr size s p. p;
    boot = λ s p. xdna_log-keeps HasOps log_info _ p p;
    release = λ s p. xdna_log-keeps HasOps log_info _ p p;
    regs = λ f s p. p;
    count = λ s p. p;
  }

-- A released device is not found.
Down-unattached : (d : Drv) (t : XdnaNpu) → Down t → drv_get_mgmt_chann_info d t ≡ (false, d, t)
unfolding drv_get_mgmt_chann_info
Down-unattached d t down =
    rw (sram_read32 sram_fw_alive_off t (omega arith)) (rw down.alive_word refl)

module _ (s : XdnaNpu) (ready : s.scratch 2 ≡ psp_status_ready) where
  abbrev loaded : XdnaNpu
  loaded = psp_loaded psp_cmd_release_tmr 0 0 0 s

  release_runs : xdna_psp_kick loaded ≡ psp_complete 0 (psp_release (count_psp loaded)).1
  unfolding xdna_psp_kick psp_run
  release_runs = refl

  abbrev released_npu : XdnaNpu
  released_npu = xdna_psp_kick loaded

  released_by : psp_exec psp_cmd_release_tmr 0 0 0 s ≡ (true, released_npu)
  released_by =
      psp_exec_kicks psp_cmd_release_tmr 0 0 0 s ready (record {
        cmd_word = omega arith;
        arg0_word = omega arith;
        arg1_word = omega arith;
        arg2_word = omega arith;
      })
      ∙ (λ i. (ap (λ (t : XdnaNpu). t.scratch 3 == 0) release_runs i, released_npu))

  release-Down : Down released_npu
  release-Down = rw release_runs (
      release-keeps (λ t. Down (psp_complete 0 t)) (count_psp loaded)
        (regs-Down _ _ (released-Down (count_psp loaded)))
        (regs-Down _ _ (emit-Down _ _ (released-Down (count_psp loaded)))))

  -- If the PSP is ready, the device is in order and the host lets the PSP read the start of the image, then the
  -- driver's RELEASE succeeds: nothing of the firmware is left, a driver that looks for the channel
  -- finds none, and changes nothing. From there a new driver can start the hardware again.
  pub release_restarts :
      Safe s
      → CanRead s.ops fw_paddr psp_peek_bytes
      → let a = psp_exec psp_cmd_release_tmr 0 0 0 s in
        let b = drv_hw_start new_drv a.1 in
        (a.0 ≡ true)
        × Down a.1
        × ((d : Drv) → drv_get_mgmt_chann_info d a.1 ≡ (false, d, a.1))
        × (b.0 ≡ true)
        × Up b.1 b.2
  release_restarts v reads =
      let k = psp_kick-Safe loaded v in
      let ops : released_npu.ops ≡ s.ops = psp_kick-keeps (HasOps-PspKept s.ops) loaded refl in
      let up = hw_starts released_npu (psp_kick_steps loaded).0 (rw ops reads) k in
      rw released_by
        (refl, release-Down, λ d. Down-unattached d released_npu release-Down, up.0, up.1)
