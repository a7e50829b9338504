-- ===== src/Mert/Dump/Loop.antt =====
-- src/xdna_mert.c, MSG_OP_QUERY_COL_STATUS: how the dump ends.
use xdna1_npu_emulator.Prelude.{
  ℕ, zero, suc, ◌+◌, ◌-◌, ◌*◌, ◌≤◌, ◌<◌, min, ◌≡◌, refl, sym, ◌∙◌, subst, ◌&&◌, ◌≢◌, ◌⊎◌, inl, inr,
  Bool, true, false, List, ◌∷◌, arith, ltb, ltb→lt, ltb→le, eq→==, ne→==, Bool-cases, replicate,
  add64,
}
use xdna1_npu_emulator.Regs.Opcodes.{aie2_status_success, aie2_status_aie_dma_error}
use xdna1_npu_emulator.State.{HostEvent, write, XdnaNpu, emit}
use xdna1_npu_emulator.Mert.Wire.{ColumnInfoReq}
use xdna1_npu_emulator.Mert.Dump.{DumpState, chunk_size, dump_loop, run_dump, dump_status}

-- The writes of the first `n` blocks of 256 zeros, the last one cut off at `size`, newest first, on
-- top of the events before them.
unfoldable pub blocks : ℕ → ℕ → ℕ → List HostEvent → List HostEvent
blocks addr size zero h = h
blocks addr size (suc k) h =
    write (add64 addr (256 * k)) (replicate (min 256 (size - 256 * k)) 0) ∷ blocks addr size k h

module _ (w : List HostEvent → ℕ → List ℕ → Bool) (addr size : ℕ) (h : List HostEvent) where
  -- What the host answers to the write of block `k`, after those of the blocks before it.
  abbrev pub accepts_block : ℕ → Bool
  accepts_block k =
      w (blocks addr size k h) (add64 addr (256 * k)) (replicate (min 256 (size - 256 * k)) 0)

  -- The host accepts the first `n` blocks.
  abbrev pub accepts_all : ℕ → Bool
  accepts_all zero = true
  accepts_all (suc k) = accepts_all k && accepts_block k

  -- The loop is over after `n` writes, with all bytes written, or when the last one failed.
  abbrev Ended : DumpState → Type 0
  Ended d =
      (n : ℕ) × (d.npu.host ≡ blocks addr size n h)
      × (((d.failed ≡ false)
            × (d.done ≡ size)
            × (size ≤ 256 * n)
            × (256 * n < size + 256)
            × (accepts_all n ≡ true))
          ⊎ ((d.failed ≡ true)
              × (d.done + 256 ≡ 256 * n)
              × (d.done < size)
              × (accepts_all (n - 1) ≡ true)
              × (accepts_block (n - 1) ≡ false)))

  loop-Ended :
      (fuel k : ℕ) (d : DumpState)
      → d.failed ≡ false
      → d.done ≡ min (256 * k) size
      → 256 * k < size + 256
      → size ≤ d.done + fuel
      → d.npu.host ≡ blocks addr size k h
      → accepts_all k ≡ true
      → Ended (dump_loop w addr size fuel d)
  unfolding dump_loop blocks
  loop-Ended zero k d ok at_block few enough seen taken =
      (k, seen, inl (ok, omega arith, omega arith, few, taken))
  loop-Ended (suc fuel) k d ok at_block few enough seen taken =
      elim (Bool-cases (ltb d.done size)) [
        | inl e ↦
            let less : d.done < size = ltb→lt d.done size e in
            let place : d.done ≡ 256 * k = omega (arith, at_block, less) in
            let at = add64 addr d.done in
            let zeros : List ℕ = replicate (chunk_size size d.done) 0 in
            let chunk : chunk_size size d.done ≡ min 256 (size - 256 * k) = ground (arith, place) in
            let logged_block : write at zeros ∷ d.npu.host ≡ blocks addr size (suc k) h =
              rw (chunk, seen, place) refl in
            let last : k ≡ suc k - 1 = omega arith in
            let asked : w d.npu.host at zeros ≡ accepts_block k = rw (chunk, seen, place) refl in
            elim (Bool-cases (w d.npu.host at zeros)) [
              | inl a ↦
                  rw (e, dump_loop, a)
                    (loop-Ended fuel (suc k)
                      (record {
                        done = d.done + chunk_size size d.done;
                        failed = false;
                        npu = emit (write at zeros) d.npu;
                      })
                      refl (omega (arith, chunk, place)) (omega (arith, place, less)) (ground arith)
                      logged_block (rw (taken, sym asked, a) refl))
              | inr a ↦
                  rw (e, dump_loop, a)
                    (
                      suc k,
                      logged_block,
                      inr (
                        refl,
                        omega (arith, place),
                        less,
                        subst (λ (j : ℕ). accepts_all j ≡ true) last taken,
                        subst (λ (j : ℕ). accepts_block j ≡ false) last (sym asked ∙ a),
                      ),
                    )
            ]
        | inr e ↦
            let over : size ≤ d.done = ltb→le d.done size e in
            rw (e, dump_loop)
              (
                k,
                seen,
                inl (ok, omega (arith, over, at_block), omega (arith, over, at_block), few, taken),
              )
      ]

-- The dump always ends, after `n` writes of consecutive blocks of zeros from the address on, and
-- the status tells how: success if the host has accepted every one of them, and then the blocks
-- cover the size asked for, and no block more than needed was written; an error of the DMA if the
-- host has refused the last one and accepted those before it, whose bytes are counted.
pub dump_ends :
    (w : List HostEvent → ℕ → List ℕ → Bool) (req : ColumnInfoReq) (s : XdnaNpu)
    → let d = run_dump w req s in
      let size = req.dump_buff_size in
      (n : ℕ) × (d.npu.host ≡ blocks req.dump_buff_addr size n s.host)
      × (((dump_status d size ≡ aie2_status_success)
            × (d.done ≡ size)
            × (size ≤ 256 * n)
            × (256 * n < size + 256)
            × (accepts_all w req.dump_buff_addr size s.host n ≡ true))
          ⊎ ((dump_status d size ≡ aie2_status_aie_dma_error)
              × (d.done + 256 ≡ 256 * n)
              × (d.done < size)
              × (accepts_all w req.dump_buff_addr size s.host (n - 1) ≡ true)
              × (accepts_block w req.dump_buff_addr size s.host (n - 1) ≡ false)))
unfolding blocks
dump_ends w req s =
    let size = req.dump_buff_size in
    let d = run_dump w req s in
    let (n, seen, end) =
      loop-Ended w req.dump_buff_addr size s.host size 0
        (record { done = 0; failed = false; npu = s }) refl (omega arith) (omega arith)
        (omega arith) refl refl in
    (
      n,
      seen,
      elim end [
        | inl r ↦ inl (rw (eq→== d.done size r.1) refl, r.1, r.2, r.3, r.4)
        | inr r ↦
            let short : d.done ≢ size = λ (e : d.done ≡ size). absurd (omega (arith, r.2, e)) in
            inr (rw (ne→== d.done size short, r.0) refl, r.1, r.2, r.3, r.4)
      ],
    )
