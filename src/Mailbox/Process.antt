-- ===== src/Mailbox/Process.antt =====
-- src/xdna_mailbox.c, `xdna_mbox_process`: the messages that the driver has queued on a channel.
use xdna1_npu_emulator.Prelude.{
  ℕ, zero, suc, ◌+◌, ◌-◌, ◌%◌, ◌^◌, bit_and, Bool, true, false, not, ◌||◌, ltb, leb, ◌==◌,
  if◌then◌else◌, add32, add64, u32_at,
}
use xdna1_npu_emulator.Regs.{sram_ctx_rb_size, mbox_tombstone}
use xdna1_npu_emulator.Mem.{read_bytes}
use xdna1_npu_emulator.State.{
  XdnaMsgHeader, XdnaChannel, XdnaNpu, max_channels, update, log_error, log_warn, xdna_log, touch,
  xdna_sram_read32,
}
use xdna1_npu_emulator.Mailbox.Send.{header_size}
use xdna1_npu_emulator.Mert.{xdna_mert_handle}

-- `MBOX_MAX_MSG_PER_KICK`
abbrev pub max_msg_per_kick : ℕ
max_msg_per_kick = 256

abbrev pub set_head : ℕ → ℕ → XdnaNpu → XdnaNpu
set_head idx head s = record s {
  chan = update s.chan idx (record (s.chan idx) { x2i_head = head });
}

-- The header that `memcpy` reads from the ring.
unfoldable pub read_header : ℕ → XdnaNpu → XdnaMsgHeader
read_header at s =
    let bs = read_bytes s.sram at header_size in
    record {
      total_size = u32_at bs 0;
      sz_ver = u32_at bs 4;
      id = u32_at bs 8;
      opcode = u32_at bs 12;
    }

-- The state after a message of `peek` bytes behind its header was copied out: the head has moved
-- past it, and it is counted.
unfoldable pub consume : ℕ → ℕ → XdnaNpu → XdnaNpu
consume idx peek s =
    let ch = s.chan idx in
    let at = ch.x2i_buf + ch.x2i_head in
    let s' = touch (at + header_size) peek (touch at header_size s) in
    let s'' = set_head idx (add32 ch.x2i_head (add32 header_size peek)) s' in
    record s'' { stats = record s''.stats { mbox_msgs_in = add64 s''.stats.mbox_msgs_in 1 } }

-- The message at the head of the ring is taken, and the firmware handles it.
unfoldable pub take_message : ℕ → ℕ → XdnaNpu → XdnaNpu
take_message idx peek s =
    let at = (s.chan idx).x2i_buf + (s.chan idx).x2i_head in
    xdna_mert_handle idx (read_header at s) (read_bytes s.sram (at + header_size) peek)
      (consume idx peek s)

-- What a round of the loop does next.
pub data Round : Type 0 where
  -- `continue` in the state
  again : XdnaNpu → Round
  -- `return` in the state
  stop : XdnaNpu → Round

-- The size of a message is a positive multiple of four.
abbrev pub is_bad_size : ℕ → Bool
is_bad_size peek = peek == 0 || not (bit_and peek 3 == 0)

-- The 32-bit difference `x2i_size - x2i_head`.
abbrev pub room : XdnaChannel → ℕ
room ch = (ch.x2i_size + 2 ^ 32 - ch.x2i_head) % 2 ^ 32

-- `sizeof(payload)`, the local buffer.
abbrev pub payload_limit : ℕ
payload_limit = sram_ctx_rb_size

-- The tests on the word at the head of the ring, in the state after it was read.
unfoldable pub inspect : ℕ → ℕ → XdnaNpu → Round
inspect idx peek s =
    let ch = s.chan idx in
    if peek == mbox_tombstone
    then again (set_head idx 0 s)
    else if is_bad_size peek
    then stop (xdna_log log_error s)
    else if ltb (room ch) (add32 header_size peek)
    then stop (xdna_log log_error s)
    else if ltb payload_limit peek
    then stop (xdna_log log_error s)
    else again (take_message idx peek s)

-- The body of the loop after the guard.
unfoldable pub round : ℕ → XdnaNpu → Round
round idx s =
    let ch = s.chan idx in
    if leb ch.x2i_size ch.x2i_head
    then again (set_head idx 0 s)
    else let (peek, s') = xdna_sram_read32 (add32 ch.x2i_buf ch.x2i_head) s in inspect idx peek s'

-- The loop, with the number of rounds that the guard still allows.
unfoldable pub process_loop : ℕ → ℕ → XdnaNpu → XdnaNpu
process_loop zero idx s =
    if (s.chan idx).x2i_head == (s.chan idx).x2i_tail then s else xdna_log log_error s
process_loop (suc n) idx s = elim ((s.chan idx).x2i_head == (s.chan idx).x2i_tail) [
  | true ↦ s
  | false ↦ elim (round idx s) [ again s' ↦ process_loop n idx s' | stop s' ↦ s' ]
]

unfoldable pub xdna_mbox_process : ℕ → XdnaNpu → XdnaNpu
xdna_mbox_process idx s =
    if leb max_channels idx
    then s
    else if not (s.chan idx).active
    then xdna_log log_warn s
    else process_loop max_msg_per_kick idx s
