-- ===== src/Device/Kept.antt =====
-- A property that every effect of an access keeps is kept by the MMIO entry points.
use xdna1_npu_emulator.Prelude.{
  ℕ, zero, suc, ◌+◌, ◌≤◌, ◌≡◌, List, [], ◌∷◌, ltb, ◌==◌, ltb→le, le→leb, ==→eq, if_keeps, if_elim,
  length, add32, le_value,
}
use xdna1_npu_emulator.Regs.{
  bar_reg, bar_sram, bar_mbox, bar_sram_size, reg_pwaitmode, reg_pub_sec_intr, reg_pub_pwrmgmt_ir,
  reg_scratch2, reg_scratch3, reg_scratch4, reg_scratch5, reg_scratch6, reg_scratch7, reg_scratch9,
  psp_notify_val,
}
use xdna1_npu_emulator.State.{XdnaNpu, update, log_debug, xdna_log, touch, store}
use xdna1_npu_emulator.Psp.{xdna_psp_kick}
use xdna1_npu_emulator.Smu.{xdna_smu_kick}
use xdna1_npu_emulator.Mailbox.{xdna_mbox_reg_write}
use xdna1_npu_emulator.Device.{
  reg_bar_read, reg_bar_write, word_read, word_write, read_words, xdna_npu_mmio_read_buf,
  write_words, xdna_npu_mmio_write_buf,
}

-- The effects of an access, where the driver writes only `Allowed` values (by offset) to the MBOX
-- BAR.
pub record AccessKept (P : XdnaNpu → Type 0) (Allowed : ℕ → ℕ → Type 0) : Type 0 where
  pub log : (level : ℕ) (s : XdnaNpu) → P s → P (xdna_log level s)
  pub waits : (v : ℕ) (s : XdnaNpu) → P s → P (record s { pwaitmode = v })
  pub sec : (v : ℕ) (s : XdnaNpu) → P s → P (record s { sec_intr = v })
  pub pwr : (v : ℕ) (s : XdnaNpu) → P s → P (record s { pwrmgmt_intr = v })
  pub scratch : (f : ℕ → ℕ) (s : XdnaNpu) → P s → P (record s { scratch = f })
  pub psp : (s : XdnaNpu) → P s → P (xdna_psp_kick s)
  pub smu : (s : XdnaNpu) → P s → P (xdna_smu_kick s)
  pub mbox : (off val : ℕ) (s : XdnaNpu) → Allowed off val → P s → P (xdna_mbox_reg_write off val s)
  pub stored :
      (off : ℕ) (bs : List ℕ) (s : XdnaNpu)
      → off + length bs ≤ bar_sram_size
      → P s
      → P (store off bs s)

-- The words that a write puts into the MBOX BAR are allowed.
abbrev pub WordsAllowed : (ℕ → ℕ → Type 0) → ℕ → ℕ → List ℕ → Type 0
WordsAllowed Allowed bar off (a ∷ b ∷ c ∷ d ∷ bs) =
    (bar ≡ bar_mbox → Allowed off (le_value (a ∷ b ∷ c ∷ d ∷ [])))
    × WordsAllowed Allowed bar (add32 off 4) bs
WordsAllowed Allowed bar off [] = Unit {0}
WordsAllowed Allowed bar off bs = bar ≡ bar_mbox → Allowed off (le_value bs)

module _ {P : XdnaNpu → Type 0} {Allowed : ℕ → ℕ → Type 0} (k : AccessKept P Allowed) where
  reg_bar_write-keeps : (off val : ℕ) (s : XdnaNpu) → P s → P (reg_bar_write off val s)
  unfolding reg_bar_write
  reg_bar_write-keeps off val s p = if_keeps P (off == reg_pwaitmode) (k.waits val s p) (
      if_keeps P (off == reg_pub_sec_intr)
        (if_keeps P (val == psp_notify_val) (k.psp _ (k.sec val s p)) (k.sec val s p))
        (if_keeps P (off == reg_pub_pwrmgmt_ir)
          (if_keeps P (val == 1) (k.smu _ (k.pwr val s p)) (k.pwr val s p))
          (if_keeps P (off == reg_scratch2) (stored 2) (
            if_keeps P (off == reg_scratch3) (stored 3) (
              if_keeps P (off == reg_scratch4) (stored 4) (
                if_keeps P (off == reg_scratch5) (stored 5) (
                  if_keeps P (off == reg_scratch6) (stored 6) (
                    if_keeps P (off == reg_scratch7) (stored 7)
                      (if_keeps P (off == reg_scratch9) (stored 9) (k.log log_debug s p))))))))))
    where
      stored : (i : ℕ) → P (record s { scratch = update s.scratch i val })
      stored i = k.scratch (update s.scratch i val) s p

  reg_bar_read-keeps : (off : ℕ) (s : XdnaNpu) → P s → P (reg_bar_read off s).1
  unfolding reg_bar_read
  reg_bar_read-keeps off s p = if_keeps R (off == reg_pwaitmode) p (
      if_keeps R (off == reg_pub_sec_intr) p (
        if_keeps R (off == reg_pub_pwrmgmt_ir) p (
          if_keeps R (off == reg_scratch2) p (
            if_keeps R (off == reg_scratch3) p (
              if_keeps R (off == reg_scratch4) p (
                if_keeps R (off == reg_scratch5) p (
                  if_keeps R (off == reg_scratch6) p (
                    if_keeps R (off == reg_scratch7) p
                      (if_keeps R (off == reg_scratch9) p (k.log log_debug s p))))))))))
    where
      R : ℕ × XdnaNpu → Type 0
      R r = P r.1

  word_write-keeps :
      (bar off val : ℕ) (s : XdnaNpu)
      → (bar ≡ bar_mbox → Allowed off val)
      → P s
      → P (word_write bar off val s)
  unfolding word_write
  word_write-keeps bar off val s h p =
      if_keeps P (bar == bar_reg) (reg_bar_write-keeps off val s p)
        (if_elim P (bar == bar_mbox) (λ e. k.mbox off val s (h (==→eq bar bar_mbox e)) p) (λ _. p))

  write_words-keeps :
      (bar off : ℕ) (bs : List ℕ) (s : XdnaNpu)
      → WordsAllowed Allowed bar off bs
      → P s
      → P (write_words bar off bs s)
  unfolding write_words
  write_words-keeps bar off (a ∷ b ∷ c ∷ d ∷ bs) s h p =
      write_words-keeps bar (add32 off 4) bs (word_write bar off (le_value (a ∷ b ∷ c ∷ d ∷ [])) s)
        h.1 (word_write-keeps bar off (le_value (a ∷ b ∷ c ∷ d ∷ [])) s h.0 p)
  write_words-keeps bar off [] s h p = p
  write_words-keeps bar off (a ∷ []) s h p = word_write-keeps bar off (le_value (a ∷ [])) s h p
  write_words-keeps bar off (a ∷ b ∷ []) s h p =
      word_write-keeps bar off (le_value (a ∷ b ∷ [])) s h p
  write_words-keeps bar off (a ∷ b ∷ c ∷ []) s h p =
      word_write-keeps bar off (le_value (a ∷ b ∷ c ∷ [])) s h p

  pub write_buf-keeps :
      (bar off : ℕ) (bs : List ℕ) (s : XdnaNpu)
      → WordsAllowed Allowed bar off bs
      → P s
      → P (xdna_npu_mmio_write_buf bar off bs s)
  unfolding xdna_npu_mmio_write_buf
  write_buf-keeps bar off bs s h p =
      if_keeps P (bar == bar_sram)
        (if_elim P (ltb bar_sram_size (off + length bs)) (λ _. p)
          (λ e. k.stored off bs s (ltb→le bar_sram_size (off + length bs) e) p))
        (write_words-keeps bar off bs s h p)

  word_read-keeps : (bar off : ℕ) (s : XdnaNpu) → P s → P (word_read bar off s).1
  unfolding word_read
  word_read-keeps bar off s p =
      if_keeps R (bar == bar_reg) (reg_bar_read-keeps off s p) (if_keeps R (bar == bar_mbox) p p)
    where
      R : ℕ × XdnaNpu → Type 0
      R r = P r.1

  read_words-keeps : (bar off n : ℕ) (s : XdnaNpu) → P s → P (read_words bar off n s).1
  unfolding read_words
  read_words-keeps bar off (suc (suc (suc (suc n)))) s p =
      read_words-keeps bar (add32 off 4) n (word_read bar off s).1 (word_read-keeps bar off s p)
  read_words-keeps bar off zero s p = p
  read_words-keeps bar off (suc zero) s p = word_read-keeps bar off s p
  read_words-keeps bar off (suc (suc zero)) s p = word_read-keeps bar off s p
  read_words-keeps bar off (suc (suc (suc zero))) s p = word_read-keeps bar off s p

  pub read_buf-keeps :
      (bar off n : ℕ) (s : XdnaNpu) → P s → P (xdna_npu_mmio_read_buf bar off n s).1
  unfolding xdna_npu_mmio_read_buf touch
  read_buf-keeps bar off n s p =
      if_keeps R (bar == bar_sram)
        (if_elim R (ltb bar_sram_size (off + n)) (λ _. p)
          (λ e. rw (le→leb (off + n) bar_sram_size (ltb→le bar_sram_size (off + n) e)) p))
        (read_words-keeps bar off n s p)
    where
      R : List ℕ × XdnaNpu → Type 0
      R r = P r.1
