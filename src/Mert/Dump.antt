-- ===== src/Mert/Dump.antt =====
-- src/xdna_mert.c, MSG_OP_QUERY_COL_STATUS: a dump of zeros written to host memory in chunks.
pub mod Loop
use xdna1_npu_emulator.Prelude.{
  ℕ, zero, suc, ◌+◌, ◌-◌, Bool, true, false, ◌||◌, none, some, List, ltb, ◌==◌, if◌then◌else◌,
  replicate, add64,
}
use xdna1_npu_emulator.Regs.Opcodes.{
  aie2_status_success, aie2_status_aie_dma_error, aie2_status_invalid_input_buffer,
  aie2_status_invalid_param,
}
use xdna1_npu_emulator.State.{HostEvent, write, XdnaMsgHeader, XdnaNpu, emit}
use xdna1_npu_emulator.Mert.Wire.{column_info_bytes, ColumnInfoReq, column_info_req}
use xdna1_npu_emulator.Mert.Reply.{mert_reply, mert_reply_status}

-- Where the loop stands: bytes written, whether a write failed, and the device.
pub record DumpState : Type 0 where
  pub done : ℕ
  pub failed : Bool
  pub npu : XdnaNpu

abbrev pub chunk_limit : ℕ
chunk_limit = 256

-- The length of the next chunk.
abbrev pub chunk_size : ℕ → ℕ → ℕ
chunk_size size done = if ltb chunk_limit (size - done) then chunk_limit else size - done

module _ (write_dma : List HostEvent → ℕ → List ℕ → Bool) (addr size : ℕ) where
  -- One `dma_write` of zeros at `addr + done`, in 64 bits.
  abbrev pub write_chunk : DumpState → Bool × XdnaNpu
  write_chunk d =
      let at = add64 addr d.done in
      let zeros = replicate (chunk_size size d.done) 0 in
      (write_dma d.npu.host at zeros, emit (write at zeros) d.npu)

  -- The `while` loop, on fuel; the loop is over when the fuel runs out (see Mert/Dump/Loop.antt).
  unfoldable pub dump_loop : ℕ → DumpState → DumpState
  dump_loop zero d = d
  dump_loop (suc fuel) d = elim (ltb d.done size) [
    | false ↦ d
    | true ↦
        elim (write_dma d.npu.host (add64 addr d.done) (replicate (chunk_size size d.done) 0)) [
          | false ↦ record d { failed = true; npu = (write_chunk d).1 }
          | true ↦ dump_loop fuel (record {
            done = d.done + chunk_size size d.done;
            failed = false;
            npu = (write_chunk d).1;
          })
        ]
  ]

-- A round writes a byte at least.
abbrev pub run_dump : (List HostEvent → ℕ → List ℕ → Bool) → ColumnInfoReq → XdnaNpu → DumpState
run_dump write_dma req s =
    dump_loop write_dma req.dump_buff_addr req.dump_buff_size req.dump_buff_size
      (record { done = 0; failed = false; npu = s })

-- The status that the response carries after the loop.
abbrev pub dump_status : DumpState → ℕ → ℕ
dump_status d size =
    if d.done == size
    then aie2_status_success
    else if d.failed
    then aie2_status_aie_dma_error
    else aie2_status_success

abbrev pub reply_column_info : ℕ → XdnaMsgHeader → ℕ → ℕ → XdnaNpu → XdnaNpu
reply_column_info chan hdr status size s =
    mert_reply chan hdr (column_info_bytes (record { status = status; size = size })) s

unfoldable pub handle_query_col_status : ℕ → XdnaMsgHeader → List ℕ → XdnaNpu → XdnaNpu
handle_query_col_status chan hdr payload s =
    let req = column_info_req payload in
    if ltb hdr.total_size 20
    then mert_reply_status chan hdr aie2_status_invalid_input_buffer s
    else if req.dump_buff_addr == 0 || req.dump_buff_size == 0
    then reply_column_info chan hdr aie2_status_invalid_param 0 s
    else elim s.ops.dma_write [
      | none ↦ reply_column_info chan hdr aie2_status_aie_dma_error 0 s
      | some write_dma ↦
          let d = run_dump write_dma req s in
          reply_column_info chan hdr (dump_status d req.dump_buff_size) d.done d.npu
    ]
