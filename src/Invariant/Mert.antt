-- ===== src/Invariant/Mert.antt =====
-- Every firmware message keeps the invariants.
use xdna1_npu_emulator.Prelude.{ℕ, List, arith}
use xdna1_npu_emulator.State.{XdnaMsgHeader, XdnaNpu}
use xdna1_npu_emulator.Mert.Reply.{mert_reply}
use xdna1_npu_emulator.Mert.Kept.{Kept}
use xdna1_npu_emulator.Mert.Kept.Dispatch.{handle-keeps}
use xdna1_npu_emulator.Mert.{xdna_mert_handle}
use xdna1_npu_emulator.Invariant.{Inv, Safe}
use xdna1_npu_emulator.Invariant.Basic.{xdna_log-keeps}
use xdna1_npu_emulator.Invariant.Send.{send-Inv}
use xdna1_npu_emulator.Invariant.SendSafe.{send-Safe}
use xdna1_npu_emulator.Invariant.Contexts.{
  create-Inv, create-Safe, destroy-Inv, destroy-Safe, set_heap-Inv,
}

pub Inv-Kept : (chan : ℕ) → Kept chan Inv
unfolding mert_reply
Inv-Kept chan = record {
  log = λ level s w. xdna_log-keeps Inv level s w w;
  reply = λ hdr payload s small w. send-Inv chan hdr.id hdr.opcode payload s w;
  config = λ f s w. w;
  pasid = λ v s w. w;
  suspended = λ b s w. w;
  async = λ addr size s w. w;
  dma = λ addr bytes s w. w;
  create = λ slot req s h free w. create-Inv slot req s h free w;
  destroy = λ slot s h taken w. destroy-Inv slot s h taken w;
  heap = λ slot req s w. set_heap-Inv slot req s w;
}

pub Safe-Kept : (chan : ℕ) → Kept chan Safe
unfolding mert_reply
Safe-Kept chan = record {
  log = λ level s v. xdna_log-keeps Safe level s v v;
  reply = λ hdr payload s small v. send-Safe chan hdr.id hdr.opcode payload s (omega arith) v;
  config = λ f s v. v;
  pasid = λ w s v. v;
  suspended = λ b s v. v;
  async = λ addr size s v. v;
  dma = λ addr bytes s v. v;
  create = λ slot req s h free v. create-Safe slot req s h free v;
  destroy = λ slot s h taken v. destroy-Safe slot s h taken v;
  heap = λ slot req s v. (set_heap-Inv slot req s v.0, v.1);
}

-- Every message of the driver, well formed or not, leaves the device in a well-formed state.
pub handle-Inv :
    (chan : ℕ) (hdr : XdnaMsgHeader) (payload : List ℕ) (s : XdnaNpu)
    → Inv s
    → Inv (xdna_mert_handle chan hdr payload s)
handle-Inv chan hdr payload s = handle-keeps (Inv-Kept chan) hdr payload s

pub handle-Safe :
    (chan : ℕ) (hdr : XdnaMsgHeader) (payload : List ℕ) (s : XdnaNpu)
    → Safe s
    → Safe (xdna_mert_handle chan hdr payload s)
handle-Safe chan hdr payload s = handle-keeps (Safe-Kept chan) hdr payload s
