-- ===== src/Mailbox/Refused.antt =====
-- src/xdna_mailbox.c, `xdna_mbox_send`: a message that is not sent.
use xdna1_npu_emulator.Prelude.{
  ℕ, ◌+◌, ◌≤◌, ◌<◌, ◌≡◌, refl, sym, ◌⊎◌, Bool, false, not, false≢true, List, ltb, leb, if_keeps,
  add32, u32_bytes,
}
use xdna1_npu_emulator.Regs.{bar_sram_size, mbox_tombstone}
use xdna1_npu_emulator.State.{
  XdnaChannel, XdnaNpu, max_channels, log_error, xdna_log, in_sram, store, xdna_sram_write32,
}
use xdna1_npu_emulator.Mem.Laws.{write_bytes_outside}
use xdna1_npu_emulator.Mailbox.Send.{
  usable_size, package_size, wraps, is_full, put_tombstone, xdna_mbox_send,
}

-- The channels, the counters and the memory outside of one word are the same.
pub record Refused (word : ℕ) (s t : XdnaNpu) : Type 0 where
  pub chan : t.chan ≡ s.chan
  pub stats : t.stats ≡ s.stats
  pub rest : (a : ℕ) → (a < word) ⊎ (word + 4 ≤ a) → t.sram a ≡ s.sram a

log-Refused :
    {word : ℕ} (level : ℕ) {s t : XdnaNpu} → Refused word s t → Refused word s (xdna_log level t)
unfolding xdna_log
log-Refused {word} level {s} {t} r =
    if_keeps (Refused word s) t.ops.log (record { chan = r.chan; stats = r.stats; rest = r.rest }) r

tombstone-Refused :
    (c : XdnaChannel) (pkg : ℕ) (s : XdnaNpu)
    → Refused (add32 c.i2x_buf c.i2x_tail) s (put_tombstone c pkg s)
unfolding put_tombstone xdna_sram_write32 store
tombstone-Refused c pkg s =
    let at = add32 c.i2x_buf c.i2x_tail in
    let none_written : Refused at s s = record { chan = refl; stats = refl; rest = λ a h. refl } in
    if_keeps (Refused at s) (wraps c pkg)
      (if_keeps (Refused at s) (ltb bar_sram_size (add32 at 4)) none_written (
        if_keeps (Refused at s) (in_sram at 4)
          (record {
            chan = refl;
            stats = refl;
            rest = λ a h. write_bytes_outside s.sram at (u32_bytes mbox_tombstone) a h;
          })
          (record { chan = refl; stats = refl; rest = λ a h. refl })))
      none_written

-- A message that is refused leaves the channels and the counters as they are, and the memory too,
-- but for the word at the tail, which may get a tombstone.
pub send_fails_quietly :
    (i id opcode : ℕ) (payload : List ℕ) (s : XdnaNpu)
    → (xdna_mbox_send i id opcode payload s).0 ≡ false
    → Refused
        (add32 (s.chan i).i2x_buf (s.chan i).i2x_tail)
        s
        (xdna_mbox_send i id opcode payload s).1
unfolding xdna_mbox_send
send_fails_quietly i id opcode payload s =
    if_keeps P (leb max_channels i) (λ _. unsent)
      (if_keeps P (not (s.chan i).active) (λ _. unsent)
        (if_keeps P (ltb (usable_size (s.chan i)) (package_size payload))
          (λ _. log-Refused log_error unsent)
          (if_keeps P (is_full (s.chan i) (package_size payload))
            (λ _. log-Refused log_error (tombstone-Refused (s.chan i) (package_size payload) s))
            (λ e. absurd (false≢true (sym e))))))
  where
    P : Bool × XdnaNpu → Type 0
    P r = r.0 ≡ false → Refused (add32 (s.chan i).i2x_buf (s.chan i).i2x_tail) s r.1

    unsent : Refused (add32 (s.chan i).i2x_buf (s.chan i).i2x_tail) s s
    unsent = record { chan = refl; stats = refl; rest = λ a h. refl }
