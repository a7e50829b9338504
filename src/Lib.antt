-- ===== src/Lib.antt =====
-- A device model of the AMD XDNA1 NPU (Hawk Point), in C, which an unmodified Linux driver can talk
-- to: registers, a shared SRAM, ring-buffer mailboxes, and the firmware behind them at the level of
-- its messages.
--
-- The program and its model. The emulator is one `struct XdnaNpu` that the MMIO entry points of
-- src/xdna_device.c change; every function of the core takes it and returns it, so a C function
-- `f(npu, ...)` is a function of the same name from the device to the device here, next to its
-- result. A driver writes PSP and SMU commands into the scratch registers and kicks them; the PSP
-- starts the firmware, which publishes the management channel in SRAM; from then on the driver
-- queues messages in the x2i ring of a channel and writes the x2i tail, the firmware handles them
-- in that call, and puts its replies into the i2x ring.
--
--   Prelude       shared names, Boolean tests on numbers, lists, little-endian bytes, bounds of the
--                 bitwise operations
--   Regs          include/xdna/xdna_regs.h: constants, opcodes and status codes
--   Mem           the SRAM as a function from offsets to bytes, and the laws of its accesses
--   State         src/xdna_internal.h, include/xdna/xdna_emu.h: `struct XdnaNpu`, the callbacks,
--                 xdna_log, xdna_sram_read32, xdna_sram_write32, and memcpy and memset on SRAM
--   Mailbox       src/xdna_mailbox.c: Channel (reset and reads), Send (xdna_mbox_send), Process
--                 (xdna_mbox_process), and the register write in Mailbox itself
--   Mert          src/xdna_mert.c: Wire (the structs of the messages), Reply (replies and their
--                 sizes), Context (contexts), Dump (the column dump), xdna_mert_handle in Mert
--   Firmware      src/xdna_fw.c: xdna_fw_boot and xdna_fw_shutdown
--   Psp, Smu      src/xdna_psp.c and src/xdna_smu.c
--   Device        src/xdna_device.c: reset, the REG BAR, reads and writes of the BARs
--                 (in Alloc, xdna_npu_free and the allocations of xdna_npu_new)
--   Qemu          qemu/hw/misc/xdna_npu.c: Callbacks (the callbacks of the core, and the accesses to
--                 the BARs, during which it makes them), Lifecycle (reset, realize, exit)
--   Driver        tests/test_boot.c: the driver's handshakes with the PSP and the SMU, mbox_recv (in
--                 Receive), mbox_send_recv (in Send), drv_get_mgmt_chann_info (in Attach) and
--                 drv_hw_start (in Session), as the client of the device; the test's host (in Host)
--   Invariant     the consistency of the device, and that every function keeps it
--   Tests         runs on concrete inputs
--
-- How the state is modelled. A fixed-size array is a function of the index, changed by `update`; a
-- pointer to a channel or a context is its index. Integers are natural numbers; where the source
-- computes in 32 or 64 bits and the result may not fit, the sum or difference is taken modulo
-- 2 ^ 32 or 2 ^ 64. The callbacks of `XdnaHostOps` are arguments of the model: a DMA call may
-- succeed or fail as it likes, depending on all that was asked of the host before; what was asked
-- is kept in `host`, in the place of `opaque`. A memcpy or memset that leaves the SRAM allocation,
-- which C leaves undefined, sets the ghost field `fault`.
--
-- Loops. The receiving loops run on the rounds that their own guards allow, 256 in the device and
-- 64 in the driver. The dump loop runs on as many rounds as bytes are asked for; a round writes a
-- byte at least, so it ends before the fuel does. The loops over words, slots and channels are
-- structural.
--
-- QEMU's own functions are parameters: what the device asks of them is recorded, newest first, in
-- `calls`, and what they answer is given by `Qemu`. The core's callbacks during an access are made in
-- their order when it returns, which the core cannot tell apart, since their answers are given too.
--
-- Not modelled: the text of log messages; big-endian hosts, since the source copies integers byte by
-- byte as they lie in memory; the bytes of the firmware image, which the PSP does not look at; of
-- qemu/hw/misc/xdna_npu.c, the type's registration and class constants and the trace points; the test
-- cases of tests/test_boot.c, the other test, the scripts and the documents.

pub mod Prelude
pub mod Regs
pub mod Mem
pub mod State
pub mod Mailbox
pub mod Mert
pub mod Firmware
pub mod Psp
pub mod Smu
pub mod Device
pub mod Qemu
pub mod Driver
pub mod Invariant
pub mod Tests
