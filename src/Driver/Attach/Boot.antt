-- ===== src/Driver/Attach/Boot.antt =====
-- tests/test_boot.c against src/xdna_fw.c: after a boot the driver finds the management channel.
use xdna1_npu_emulator.State.{XdnaChannel, XdnaNpu, xdna_sram_dev_addr}
use xdna1_npu_emulator.Firmware.{info_bytes, mgmt_msix_vector, mgmt_info, xdna_fw_boot}
use xdna1_npu_emulator.Firmware.Boot.{mgmt_channel, boot_chan, Published, boot_publishes}
use xdna1_npu_emulator.Prelude.{◌≡◌, refl, sym, ◌∙◌, subst, true, arith, u32_bytes}
use xdna1_npu_emulator.Driver.Attach.{attach, drv_get_mgmt_chann_info}
use xdna1_npu_emulator.Driver.Receive.Access.{Attached, sram_read}
use xdna1_npu_emulator.Regs.{
  bar_sram, sram_fw_alive_off, sram_mgmt_info_off, mgmt_prot_major, mgmt_prot_minor,
}
use xdna1_npu_emulator.Mem.{write_bytes}
use xdna1_npu_emulator.Device.{xdna_npu_mmio_read_buf}
use xdna1_npu_emulator.Driver.{rd32}
use xdna1_npu_emulator.Driver.Receive.{Drv}
use xdna1_npu_emulator.Driver.Send.Feed.{Feeds, sram_read32, sram_write32}

-- The driver knows both rings of channel 0 and its registers, its interrupt and the protocol.
pub record KnowsMgmt (c : XdnaChannel) (d : Drv) : Type 0 where
  pub outgoing : Attached 0 c d
  pub incoming : Feeds 0 c d
  pub msix_id : d.msix_id ≡ mgmt_msix_vector
  pub prot_major : d.prot_major ≡ mgmt_prot_major
  pub prot_minor : d.prot_minor ≡ mgmt_prot_minor

-- A driver whose positions are at the start of the rings.
abbrev pub AtStart : Drv → Type 0
AtStart d = (d.x2i_tail ≡ 0) × (d.i2x_head ≡ 0)

pub attach-KnowsMgmt :
    (d : Drv) → AtStart d → KnowsMgmt mgmt_channel (attach (info_bytes mgmt_info) d)
unfolding attach
attach-KnowsMgmt d start = record {
  outgoing = record {
    rb_start = refl;
    rb_size = refl;
    head_reg = refl;
    tail_reg = refl;
    intr_reg = refl;
    position = start.1;
  };
  incoming = record {
    rb_start = refl;
    rb_size = refl;
    head_reg = refl;
    tail_reg = refl;
    position = start.0;
  };
  msix_id = refl;
  prot_major = refl;
  prot_minor = refl;
}

-- The device after the driver has cleared the FW_ALIVE word.
abbrev pub cleared_alive : XdnaNpu → XdnaNpu
cleared_alive t = record t { sram = write_bytes t.sram sram_fw_alive_off (u32_bytes 0) }

-- A published channel is found.
pub attaches :
    (d : Drv) (t : XdnaNpu)
    → Published t
    → drv_get_mgmt_chann_info d t ≡ (true, attach (info_bytes mgmt_info) d, cleared_alive t)
unfolding drv_get_mgmt_chann_info
attaches d t p =
    let alive : rd32 bar_sram sram_fw_alive_off t ≡ (xdna_sram_dev_addr sram_mgmt_info_off, t) =
      sram_read32 sram_fw_alive_off t (omega arith) ∙ (λ i. (p.pointer i, t)) in
    let info : xdna_npu_mmio_read_buf bar_sram sram_mgmt_info_off 64 t ≡ (info_bytes mgmt_info, t) =
      sram_read sram_mgmt_info_off 64 t (omega arith) ∙ (λ i. (p.info i, t)) in
    rw (alive, info)
      (λ i.
        (true, attach (info_bytes mgmt_info) d, sram_write32 sram_fw_alive_off 0 t (omega arith) i))

-- After a boot, from whatever state, a driver that starts at position 0 finds the firmware alive and
-- the description of the management channel: it then knows the places, the sizes and the registers
-- of both rings as channel 0 has them, its interrupt and the protocol version, and it has cleared
-- the FW_ALIVE word and nothing else.
pub driver_attaches :
    (d : Drv) (s : XdnaNpu)
    → AtStart d
    → let t = xdna_fw_boot s in
      let r = drv_get_mgmt_chann_info d t in
      (r.0 ≡ true) × KnowsMgmt (t.chan 0) r.1 × (r.2 ≡ cleared_alive t)
driver_attaches d s start = rw (attaches d (xdna_fw_boot s) (boot_publishes s)) (
  refl,
  subst (λ (c : XdnaChannel). KnowsMgmt c (attach (info_bytes mgmt_info) d)) (sym (boot_chan s))
      (attach-KnowsMgmt d start),
  refl,
)
