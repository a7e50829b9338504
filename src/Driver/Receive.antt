-- ===== src/Driver/Receive.antt =====
-- tests/test_boot.c, `mbox_recv`: the driver takes a reply out of an outgoing ring. The checks of the
-- test that only count failures are not modelled.
pub mod Access
pub mod Find
pub mod Roundtrip
pub mod Wrapped
pub mod Taken
pub mod Accepted
pub mod Delivery
use xdna1_npu_emulator.Prelude.{
  ℕ, zero, suc, true, false, not, ◌&&◌, Option, none, some, List, [], ◌==◌, if◌then◌else◌, add32,
  le_value, u32_at,
}
use xdna1_npu_emulator.Regs.{bar_sram, bar_mbox, mbox_tombstone}
use xdna1_npu_emulator.State.{XdnaMsgHeader, XdnaNpu}
use xdna1_npu_emulator.Device.{xdna_npu_mmio_read_buf}
use xdna1_npu_emulator.Mailbox.Send.{header_size}
use xdna1_npu_emulator.Driver.{rd32, wr32}

-- Where the driver finds a ring: in SRAM, and its registers in the MBOX BAR.
pub record ChannRes : Type 0 where
  pub rb_start : ℕ
  pub rb_size : ℕ
  pub head_reg : ℕ
  pub tail_reg : ℕ

-- The fields of the driver, but for the pointers to the device and to its host.
pub record Drv : Type 0 where
  pub x2i : ChannRes
  pub i2x : ChannRes
  pub intr_reg : ℕ
  pub msix_id : ℕ
  pub prot_major : ℕ
  pub prot_minor : ℕ
  pub x2i_tail : ℕ
  pub i2x_head : ℕ
  pub next_id : ℕ

-- A message that was received.
pub record Received : Type 0 where
  pub hdr : XdnaMsgHeader
  pub resp : List ℕ

-- The position of a message, if the ring has one, with the driver and the device.
pub record Search : Type 0 where
  pub at : Option ℕ
  pub drv : Drv
  pub npu : XdnaNpu

abbrev pub wrap_head : Drv → ℕ
wrap_head d = if d.i2x_head == d.i2x.rb_size then 0 else d.i2x_head

unfoldable pub skip_tombstone : Drv → XdnaNpu → XdnaNpu
skip_tombstone d s = wr32 bar_mbox d.i2x.head_reg 0 s

-- The loop, on the rounds that its guard allows.
unfoldable pub recv_loop : ℕ → Drv → XdnaNpu → Search
recv_loop zero d s = record { at = none; drv = d; npu = s }
recv_loop (suc n) d s =
    let tail = rd32 bar_mbox d.i2x.tail_reg s in
    elim (d.i2x_head == tail.0) [
      | true ↦ record { at = none; drv = d; npu = tail.1 }
      | false ↦
          let peek =
            xdna_npu_mmio_read_buf bar_sram (add32 d.i2x.rb_start (wrap_head d)) 4 tail.1 in
          elim (le_value peek.0 == mbox_tombstone) [
            | true ↦ recv_loop n (record d { i2x_head = 0 }) (skip_tombstone d peek.1)
            | false ↦ record { at = some (wrap_head d); drv = d; npu = peek.1 }
          ]
    ]

-- The header that the bytes hold.
unfoldable pub header_of : List ℕ → XdnaMsgHeader
header_of bs = record {
  total_size = u32_at bs 0;
  sz_ver = u32_at bs 4;
  id = u32_at bs 8;
  opcode = u32_at bs 12;
}

-- The header, the payload if its size is the one expected, and the new read position.
unfoldable pub take : ℕ → ℕ → Drv → XdnaNpu → Received × Drv × XdnaNpu
take head resp_size d s =
    let h = xdna_npu_mmio_read_buf bar_sram (add32 d.i2x.rb_start head) header_size s in
    let hdr = header_of h.0 in
    let p =
      xdna_npu_mmio_read_buf bar_sram (add32 (add32 d.i2x.rb_start head) header_size) resp_size
        h.1 in
    let fits = hdr.total_size == resp_size && not (resp_size == 0) in
    let next = add32 head (add32 header_size hdr.total_size) in
    (
      record { hdr = hdr; resp = if fits then p.0 else [] },
      record d { i2x_head = next },
      wr32 bar_mbox d.i2x.head_reg next (if fits then p.1 else h.1),
    )

-- `none` stands for -1.
abbrev pub finish : ℕ → Search → Option Received × Drv × XdnaNpu
finish resp_size f = elim f.at [
  | none ↦ (none, f.drv, f.npu)
  | some head ↦ let r = take head resp_size f.drv f.npu in (some r.0, r.1, r.2)
]

unfoldable pub mbox_recv : ℕ → Drv → XdnaNpu → Option Received × Drv × XdnaNpu
mbox_recv resp_size d s = finish resp_size (recv_loop 64 d (wr32 bar_mbox d.intr_reg 0 s))
