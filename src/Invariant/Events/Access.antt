-- ===== src/Invariant/Events/Access.antt =====
-- Processing, commands and accesses only add to what was asked of the host.
use xdna1_npu_emulator.Prelude.{
  ℕ, ◌+◌, ◌/◌, ◌%◌, not, ◌||◌, none, some, List, ltb, leb, ◌==◌, if_keeps, add32, le_value,
}
use xdna1_npu_emulator.Regs.{
  sram_fw_alive_off, sram_mgmt_info_off, sram_mgmt_x2i_off, sram_mgmt_i2x_off, mbox_chan_stride,
  mbox_x2i_head_off, mbox_x2i_tail_off, mbox_i2x_head_off, mbox_intr_off, mbox_i2x_tail_off,
  mbox_tombstone,
}
use xdna1_npu_emulator.Mem.{read_bytes}
use xdna1_npu_emulator.State.{
  HostEvent, logged, read_phys, read, running, XdnaNpu, max_channels, log_error, log_warn, log_info,
  xdna_log, touch,
}
use xdna1_npu_emulator.Mailbox.Send.{header_size}
use xdna1_npu_emulator.Mailbox.Process.{
  max_msg_per_kick, read_header, consume, take_message, Round, is_bad_size, room, payload_limit,
  inspect, round, xdna_mbox_process,
}
use xdna1_npu_emulator.Mailbox.{write_chan_reg, xdna_mbox_reg_write}
use xdna1_npu_emulator.Mert.Kept.Dispatch.{handle-keeps}
use xdna1_npu_emulator.Firmware.{open_mgmt, publish_info, xdna_fw_boot}
use xdna1_npu_emulator.Psp.{psp_release}
use xdna1_npu_emulator.Psp.Kept.{PspKept, psp_kick-keeps}
use xdna1_npu_emulator.Smu.Kept.{SmuKept, smu_kick-keeps}
use xdna1_npu_emulator.Device.{xdna_npu_reset, xdna_npu_mmio_read, xdna_npu_mmio_write}
use xdna1_npu_emulator.Device.Kept.{AccessKept, write_buf-keeps, read_buf-keeps}
use xdna1_npu_emulator.Invariant.{Inv}
use xdna1_npu_emulator.Invariant.Basic.{xdna_log-keeps, store-Inv, touch-Inv}
use xdna1_npu_emulator.Invariant.Process.{
  after, process_loop-keeps, set_head-Inv, consume-Inv, read32-keeps,
}
use xdna1_npu_emulator.Invariant.Reset.{mbox_reset-eq}
use xdna1_npu_emulator.Invariant.Power.{release-keeps}
use xdna1_npu_emulator.Invariant.Commands.{Inv-PspKept, Inv-SmuKept}
use xdna1_npu_emulator.Invariant.Access.{chan_from_off-elim, regs-Inv, mbox_reg_write-Inv}
use xdna1_npu_emulator.Invariant.Reach.{Anything, any_words, reset-Inv}
use xdna1_npu_emulator.Invariant.Events.{
  added, Tracked, Since, log-Since, store-Since, write32-Since, clear-Since, touch-Since,
  channel_reset-Since, Tracked-Kept,
}

module _ (before : List HostEvent) where
  abbrev After : Round → Type 0
  After r = Tracked before (after r)

  logged-Tracked : (level : ℕ) (s : XdnaNpu) → Tracked before s → Tracked before (xdna_log level s)
  logged-Tracked level s t = (xdna_log-keeps Inv level s t.0 t.0, log-Since before level s t.1)

  touch-Tracked : (off len : ℕ) (s : XdnaNpu) → Tracked before s → Tracked before (touch off len s)
  touch-Tracked off len s t = (touch-Inv off len s t.0, touch-Since before off len s t.1)

  consume-Tracked :
      (idx peek : ℕ) (s : XdnaNpu) → Tracked before s → Tracked before (consume idx peek s)
  unfolding consume
  consume-Tracked idx peek s t =
      let at = (s.chan idx).x2i_buf + (s.chan idx).x2i_head in
      (
        consume-Inv idx peek s t.0,
        touch-Since before (at + header_size) peek _ (touch-Since before at header_size s t.1),
      )

  take-Tracked :
      (idx peek : ℕ) (s : XdnaNpu) → Tracked before s → Tracked before (take_message idx peek s)
  unfolding take_message
  take-Tracked idx peek s t =
      let at = (s.chan idx).x2i_buf + (s.chan idx).x2i_head in
      handle-keeps (Tracked-Kept before idx) (read_header at s)
        (read_bytes s.sram (at + header_size) peek) (consume idx peek s)
        (consume-Tracked idx peek s t)

  inspect-Tracked : (idx peek : ℕ) (s : XdnaNpu) → Tracked before s → After (inspect idx peek s)
  unfolding inspect
  inspect-Tracked idx peek s t =
      if_keeps After (peek == mbox_tombstone) (set_head-Inv idx 0 s t.0, t.1)
        (if_keeps After (is_bad_size peek) (logged-Tracked log_error s t) (
          if_keeps After (ltb (room (s.chan idx)) (add32 header_size peek))
            (logged-Tracked log_error s t)
            (if_keeps After (ltb payload_limit peek) (logged-Tracked log_error s t)
              (take-Tracked idx peek s t))))

  round-Tracked : (idx : ℕ) (s : XdnaNpu) → Tracked before s → After (round idx s)
  unfolding round
  round-Tracked idx s t =
      if_keeps After (leb (s.chan idx).x2i_size (s.chan idx).x2i_head)
        (set_head-Inv idx 0 s t.0, t.1)
        (read32-keeps (λ r. After (inspect idx r.0 r.1)) at s (inspect-Tracked idx 0 s t)
          (inspect-Tracked idx (le_value (read_bytes s.sram at 4)) (touch at 4 s)
            (touch-Tracked at 4 s t)))
    where
      at : ℕ
      at = add32 (s.chan idx).x2i_buf (s.chan idx).x2i_head

  process-Tracked :
      (idx : ℕ) (s : XdnaNpu) → Tracked before s → Tracked before (xdna_mbox_process idx s)
  unfolding xdna_mbox_process
  process-Tracked idx s t = if_keeps (Tracked before) (leb max_channels idx) t (
      if_keeps (Tracked before) (not (s.chan idx).active) (logged-Tracked log_warn s t) (
        process_loop-keeps (Tracked before) idx (logged-Tracked log_error) (round-Tracked idx)
          max_msg_per_kick s t))

  mbox_write-Since :
      (off val : ℕ) (s : XdnaNpu) → Tracked before s → Since before (xdna_mbox_reg_write off val s)
  unfolding xdna_mbox_reg_write write_chan_reg
  mbox_write-Since off val s t =
      chan_from_off-elim
        (λ o. Since before (elim o [ none ↦ s | some (idx, reg) ↦ write_chan_reg idx reg val s ]))
        off t.1 (λ _. write (off / mbox_chan_stride) (off % mbox_chan_stride))
    where
      write : (idx reg : ℕ) → Since before (write_chan_reg idx reg val s)
      write idx reg =
          if_keeps (Since before) (reg == mbox_x2i_tail_off)
            (process-Tracked (s.chan idx).index _
              (regs-Inv idx val (s.chan idx).i2x_head (s.chan idx).intr s t.0, t.1)).1
            (if_keeps (Since before) (reg == mbox_i2x_head_off) t.1 (
              if_keeps (Since before) (reg == mbox_intr_off) t.1 (
                if_keeps (Since before) (reg == mbox_x2i_head_off || reg == mbox_i2x_tail_off)
                  (log-Since before log_warn s t.1) t.1)))

  boot-Since :
      (s : XdnaNpu)
      → Since before s
      → Since before (xdna_fw_boot (record s { psp_state = running }))
  unfolding xdna_fw_boot publish_info open_mgmt
  boot-Since s a = log-Since before log_info _ (
      write32-Since before sram_fw_alive_off _ _ (
        store-Since before sram_mgmt_info_off _ _ (
          clear-Since before sram_mgmt_i2x_off _ _ (
            clear-Since before sram_mgmt_x2i_off _ _
              (channel_reset-Since before 0 (record s { psp_state = running }) a)))))

  release-Since : (s : XdnaNpu) → Since before s → Since before (psp_release s).1
  release-Since s a =
      release-keeps (Since before) s (write32-Since before sram_fw_alive_off 0 _ a)
        (added (logged log_info) tt (write32-Since before sram_fw_alive_off 0 _ a))

  Tracked-PspKept : PspKept (Tracked before)
  Tracked-PspKept = record {
    log = logged-Tracked;
    asked = λ paddr n s t. (t.0, added (read paddr n) tt t.1);
    asked_phys = λ paddr n s t. (t.0, added (read_phys paddr n) tt t.1);
    accept = λ paddr size s t. (Inv-PspKept.accept paddr size s t.0, t.1);
    boot = λ s t. (Inv-PspKept.boot s t.0, boot-Since s t.1);
    release = λ s t. (Inv-PspKept.release s t.0, release-Since s t.1);
    regs = λ f s t. t;
    count = λ s t. t;
  }

  Tracked-SmuKept : SmuKept (Tracked before)
  Tracked-SmuKept = record {
    log = logged-Tracked;
    power = λ on s t. t;
    npuclk = λ v s t. t;
    hclk = λ v s t. t;
    dpm = λ level s h t. (Inv-SmuKept.dpm level s h t.0, t.1);
    regs = λ f s t. t;
    count = λ s t. t;
  }

  pub Tracked-AccessKept : AccessKept (Tracked before) Anything
  Tracked-AccessKept = record {
    log = logged-Tracked;
    waits = λ v s t. t;
    sec = λ v s t. t;
    pwr = λ v s t. t;
    scratch = λ f s t. t;
    psp = psp_kick-keeps Tracked-PspKept;
    smu = smu_kick-keeps Tracked-SmuKept;
    mbox = λ off val s _ t. (mbox_reg_write-Inv off val s t.0, mbox_write-Since off val s t);
    stored = λ off bs s _ t. (store-Inv off bs s t.0, store-Since before off bs s t.1);
  }

  -- Every access leaves the device well formed and only adds to what was asked of the host.
  pub mmio_read-Tracked :
      (bar off len : ℕ) (s : XdnaNpu)
      → Tracked before s
      → Tracked before (xdna_npu_mmio_read bar off len s).1
  unfolding xdna_npu_mmio_read
  mmio_read-Tracked bar off len s t = read_buf-keeps Tracked-AccessKept bar off _ s t

  pub mmio_write-Tracked :
      (bar off val len : ℕ) (s : XdnaNpu)
      → Tracked before s
      → Tracked before (xdna_npu_mmio_write bar off val len s)
  unfolding xdna_npu_mmio_write
  mmio_write-Tracked bar off val len s t =
      write_buf-keeps Tracked-AccessKept bar off _ s (any_words bar off _) t

  pub reset-Tracked : (s : XdnaNpu) → Tracked before s → Tracked before (xdna_npu_reset s)
  unfolding xdna_npu_reset
  reset-Tracked s t = (reset-Inv s, rw mbox_reset-eq t.1)
