-- ===== src/Driver/Send.antt =====
-- tests/test_boot.c, `mbox_send_recv`: the driver puts a request into an incoming ring, which starts
-- the device, and takes the reply out of the outgoing ring. The checks of the test that only count
-- failures, that of the interrupt among them, are not modelled.
pub mod Feed
pub mod Reaches
pub mod Wrapped
pub mod Turn
pub mod Answered
pub mod Query
use xdna1_npu_emulator.Prelude.{
  ℕ, ◌+◌, ◌-◌, ◌%◌, ◌^◌, bit_and, bit_or, Bool, ◌&&◌, Option, none, some, List, ltb, leb, ◌==◌,
  if◌then◌else◌, length, add32, u32_bytes,
}
use xdna1_npu_emulator.Regs.{bar_sram, bar_mbox, mbox_magic_val, mbox_tombstone}
use xdna1_npu_emulator.State.{XdnaMsgHeader, XdnaNpu}
use xdna1_npu_emulator.Device.{xdna_npu_mmio_write_buf}
use xdna1_npu_emulator.Mailbox.Send.{header_size, header_bytes, message_header}
use xdna1_npu_emulator.Driver.{rd32, wr32}
use xdna1_npu_emulator.Driver.Receive.{Drv, Received, mbox_recv}

-- The ring without its last word, in 32 bits.
abbrev pub x2i_usable : Drv → ℕ
x2i_usable d = (d.x2i.rb_size + 2 ^ 32 - 4) % 2 ^ 32

-- The request does not fit behind the driver's tail.
abbrev pub x2i_wraps : Drv → ℕ → ℕ → Bool
x2i_wraps d head pkg = leb head d.x2i_tail && ltb (x2i_usable d) (add32 d.x2i_tail pkg)

abbrev pub x2i_write_tail : Drv → ℕ → ℕ → ℕ
x2i_write_tail d head pkg = if x2i_wraps d head pkg then 0 else d.x2i_tail

abbrev pub x2i_full : Drv → ℕ → ℕ → Bool
x2i_full d head pkg =
    let tail = x2i_write_tail d head pkg in ltb tail head && leb head (add32 tail pkg)

unfoldable pub x2i_tombstone : Drv → ℕ → ℕ → XdnaNpu → XdnaNpu
x2i_tombstone d head pkg s =
    if x2i_wraps d head pkg
    then xdna_npu_mmio_write_buf bar_sram (add32 d.x2i.rb_start d.x2i_tail)
        (u32_bytes mbox_tombstone) s
    else s

-- The id of the next request.
abbrev pub request_id : Drv → ℕ
request_id d = bit_or (bit_and d.next_id 0xFF) mbox_magic_val

-- The header and the request, at a position of the ring.
unfoldable pub put_request : ℕ → XdnaMsgHeader → List ℕ → Drv → XdnaNpu → XdnaNpu
put_request tail hdr req d s =
    let s' = xdna_npu_mmio_write_buf bar_sram (add32 d.x2i.rb_start tail) (header_bytes hdr) s in
    if length req == 0
    then s'
    else xdna_npu_mmio_write_buf bar_sram (add32 (add32 d.x2i.rb_start tail) header_size) req s'

abbrev pub advance : ℕ → Drv → Drv
advance tail d = record d { x2i_tail = tail; next_id = add32 d.next_id 1 }

-- The first part of `mbox_send_recv`: the id, `none` if the ring is full. The write of the tail
-- starts the device.
unfoldable pub mbox_send : ℕ → List ℕ → Drv → XdnaNpu → Option ℕ × Drv × XdnaNpu
mbox_send opcode req d s =
    let pkg = add32 header_size (length req) in
    let head = rd32 bar_mbox d.x2i.head_reg s in
    let tail = x2i_write_tail d head.0 pkg in
    let s1 = x2i_tombstone d head.0 pkg head.1 in
    let id = request_id d in
    let s2 = put_request tail (message_header (length req) id opcode) req d s1 in
    if x2i_full d head.0 pkg
    then (none, d, s1)
    else (some id, advance (add32 tail pkg) d, wr32 bar_mbox d.x2i.tail_reg (add32 tail pkg) s2)

-- The second part: the reply is taken if the request was sent. `none` stands for -1.
abbrev pub await_reply : ℕ → Option ℕ × Drv × XdnaNpu → Option Received × Drv × XdnaNpu
await_reply resp_size sent = elim sent.0 [
  | none ↦ (none, sent.1, sent.2)
  | some id ↦ mbox_recv resp_size sent.1 sent.2
]

unfoldable pub mbox_send_recv : ℕ → List ℕ → ℕ → Drv → XdnaNpu → Option Received × Drv × XdnaNpu
mbox_send_recv opcode req resp_size d s = await_reply resp_size (mbox_send opcode req d s)
