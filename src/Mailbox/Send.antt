-- ===== src/Mailbox/Send.antt =====
-- src/xdna_mailbox.c, `xdna_mbox_send`: a message from the device to the driver.
use xdna1_npu_emulator.Prelude.{
  ℕ, ◌+◌, ◌-◌, ◌*◌, ◌%◌, ◌^◌, bit_and, bit_or, Bool, true, false, not, ◌&&◌, List, ◌++◌, ltb, leb,
  ◌==◌, if◌then◌else◌, length, add32, add64, u32_bytes,
}
use xdna1_npu_emulator.Regs.{
  mbox_tombstone, msg_protocol_ver, msg_body_sz_mask, msg_proto_ver_shift,
}
use xdna1_npu_emulator.State.{
  irq, XdnaMsgHeader, XdnaChannel, XdnaNpu, max_channels, update, log_error, emit, xdna_log, store,
  xdna_sram_write32,
}

abbrev pub header_size : ℕ
header_size = 16

-- A header as it lies in memory.
abbrev pub header_bytes : XdnaMsgHeader → List ℕ
header_bytes h =
    u32_bytes h.total_size ++ u32_bytes h.sz_ver ++ u32_bytes h.id ++ u32_bytes h.opcode

-- The header of a message with a payload of `len` bytes.
abbrev pub message_header : ℕ → ℕ → ℕ → XdnaMsgHeader
message_header len id opcode = record {
  total_size = len;
  sz_ver = bit_or (bit_and len msg_body_sz_mask) (msg_protocol_ver * 2 ^ msg_proto_ver_shift);
  id = id;
  opcode = opcode;
}

-- The ring without its last word, which is kept for a tombstone: `i2x_size - 4` in 32 bits.
abbrev pub usable_size : XdnaChannel → ℕ
usable_size ch = (ch.i2x_size + 2 ^ 32 - 4) % 2 ^ 32

abbrev pub package_size : List ℕ → ℕ
package_size payload = add32 header_size (length payload)

-- The message does not fit behind the tail.
abbrev pub wraps : XdnaChannel → ℕ → Bool
wraps ch pkg = leb ch.i2x_head ch.i2x_tail && ltb (usable_size ch) (add32 ch.i2x_tail pkg)

-- Where the message goes, after a wrap if one is needed.
abbrev pub write_tail : XdnaChannel → ℕ → ℕ
write_tail ch pkg = if wraps ch pkg then 0 else ch.i2x_tail

-- The test for a full ring, at the tail that is left after the wrap.
abbrev pub is_full : XdnaChannel → ℕ → Bool
is_full ch pkg =
    ltb (write_tail ch pkg) ch.i2x_head && leb ch.i2x_head (add32 (write_tail ch pkg) pkg)

unfoldable pub put_tombstone : XdnaChannel → ℕ → XdnaNpu → XdnaNpu
put_tombstone ch pkg s =
    if wraps ch pkg then xdna_sram_write32 (add32 ch.i2x_buf ch.i2x_tail) mbox_tombstone s else s

-- The two `memcpy` calls.
unfoldable pub put_message : ℕ → XdnaMsgHeader → List ℕ → XdnaNpu → XdnaNpu
put_message at hdr payload s =
    let s' = store at (header_bytes hdr) s in
    if length payload == 0 then s' else store (at + header_size) payload s'

abbrev pub set_tail : ℕ → ℕ → XdnaNpu → XdnaNpu
set_tail chan_idx tail s = record s {
  chan = update s.chan chan_idx (record (s.chan chan_idx) { i2x_tail = tail; intr = 1 });
  stats = record s.stats { mbox_msgs_out = add64 s.stats.mbox_msgs_out 1 };
}

unfoldable pub notify : ℕ → XdnaNpu → XdnaNpu
notify chan_idx s =
    if s.ops.raise_irq
    then record (emit (irq (s.chan chan_idx).index) s) {
      stats = record s.stats { irqs_raised = add64 s.stats.irqs_raised 1 };
    }
    else s

unfoldable pub deliver : ℕ → ℕ → ℕ → List ℕ → XdnaNpu → XdnaNpu
deliver chan_idx id opcode payload s =
    let ch = s.chan chan_idx in
    let pkg = package_size payload in
    let at = write_tail ch pkg in
    notify chan_idx (
      set_tail chan_idx (add32 at pkg) (
        put_message (ch.i2x_buf + at) (message_header (length payload) id opcode) payload
          (put_tombstone ch pkg s)))

-- `true` stands for the return value 0, `false` for -1.
unfoldable pub xdna_mbox_send : ℕ → ℕ → ℕ → List ℕ → XdnaNpu → Bool × XdnaNpu
xdna_mbox_send chan_idx id opcode payload s =
    let ch = s.chan chan_idx in
    let pkg = package_size payload in
    if leb max_channels chan_idx
    then (false, s)
    else if not ch.active
    then (false, s)
    else if ltb (usable_size ch) pkg
    then (false, xdna_log log_error s)
    else if is_full ch pkg
    then (false, xdna_log log_error (put_tombstone ch pkg s))
    else (true, deliver chan_idx id opcode payload s)
