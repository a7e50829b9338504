-- ===== src/Driver/Session/Create.antt =====
-- tests/test_boot.c against src/xdna_mert.c: the driver creates a context, and is told where its
-- channel is.
use xdna1_npu_emulator.Driver.Session.Replies.{replied}
use xdna1_npu_emulator.Driver.Session.Hand.{Idle, Handy, Handed, hand}
use xdna1_npu_emulator.Driver.Send.Reaches.{request_header}
use xdna1_npu_emulator.Prelude.{
  ℕ, suc, ◌+◌, ◌<◌, ◌≡◌, refl, sym, ap, ◌∙◌, subst, true, false, some, List, arith, if_keeps,
}
use xdna1_npu_emulator.Regs.{
  sram_ctx_rb_stride, mbox_x2i_head_off, mbox_x2i_tail_off, mbox_i2x_head_off, mbox_i2x_tail_off,
  npu1_hwctx_limit, mbox_chan_base,
}
use xdna1_npu_emulator.Regs.Opcodes.{msg_op_create_context}
use xdna1_npu_emulator.State.{
  XdnaMsgHeader, XdnaChannel, XdnaContext, XdnaNpu, update, log_info, xdna_log, in_sram, clear,
  xdna_sram_dev_addr, xdna_mbox_dev_addr,
}
use xdna1_npu_emulator.Mailbox.Send.{message_header}
use xdna1_npu_emulator.Mert.Wire.{CreateCtxResp, create_ctx_bytes, CreateCtxReq, create_ctx_req}
use xdna1_npu_emulator.Mert.Reply.{mert_reply}
use xdna1_npu_emulator.Mert.Context.{
  is_free, slot_rb_base, open_channel, fill_slot, create_resp, create_in, handle_create_context,
}
use xdna1_npu_emulator.Mert.Slots.{IsFirst}
use xdna1_npu_emulator.Mert.Table.{reply-SameTable}
use xdna1_npu_emulator.Mert.Lifecycle.{
  ValidCreate, LowestFree, new_context, create_runs, create_fills_slot,
}
use xdna1_npu_emulator.Mert.{dispatch, xdna_mert_handle}
use xdna1_npu_emulator.Invariant.{Safe}
use xdna1_npu_emulator.Invariant.Basic.{xdna_log-keeps}
use xdna1_npu_emulator.Invariant.Assign.{Assigned}
use xdna1_npu_emulator.Invariant.Contexts.{
  fresh_channel, opened-Assigned, open_channel-keeps, create-Safe,
}
use xdna1_npu_emulator.Driver.Receive.{Drv}
use xdna1_npu_emulator.Driver.Send.{request_id, mbox_send_recv}

-- The response describes the channel: it is open and its rings are empty, and their places, their
-- sizes, their registers and the interrupt are those of the response.
pub record Advertises (r : CreateCtxResp) (c : XdnaChannel) : Type 0 where
  pub active : c.active ≡ true
  pub msix_id : r.msix_id ≡ c.index
  pub x2i_buf : r.cq_pair0.x2i_q.buf_addr ≡ xdna_sram_dev_addr c.x2i_buf
  pub x2i_size : r.cq_pair0.x2i_q.buf_size ≡ c.x2i_size
  pub x2i_head_reg :
      r.cq_pair0.x2i_q.head_addr ≡ xdna_mbox_dev_addr (mbox_chan_base c.index + mbox_x2i_head_off)
  pub x2i_tail_reg :
      r.cq_pair0.x2i_q.tail_addr ≡ xdna_mbox_dev_addr (mbox_chan_base c.index + mbox_x2i_tail_off)
  pub i2x_buf : r.cq_pair0.i2x_q.buf_addr ≡ xdna_sram_dev_addr c.i2x_buf
  pub i2x_size : r.cq_pair0.i2x_q.buf_size ≡ c.i2x_size
  pub i2x_head_reg :
      r.cq_pair0.i2x_q.head_addr ≡ xdna_mbox_dev_addr (mbox_chan_base c.index + mbox_i2x_head_off)
  pub i2x_tail_reg :
      r.cq_pair0.i2x_q.tail_addr ≡ xdna_mbox_dev_addr (mbox_chan_base c.index + mbox_i2x_tail_off)
  pub x2i_empty : (c.x2i_head ≡ 0) × (c.x2i_tail ≡ 0)
  pub i2x_empty : (c.i2x_head ≡ 0) × (c.i2x_tail ≡ 0)

reg_addr :
    (reg slot : ℕ)
    → xdna_mbox_dev_addr (mbox_chan_base (slot + 1) + reg)
      ≡ xdna_mbox_dev_addr (mbox_chan_base (suc slot) + reg)
reg_addr reg slot = ap (λ (n : ℕ). xdna_mbox_dev_addr (mbox_chan_base n + reg)) (omega arith)

fresh-Advertises :
    (slot id : ℕ) → slot < npu1_hwctx_limit → Advertises (create_resp slot id) (fresh_channel slot)
fresh-Advertises slot id h = record {
  active = refl;
  msix_id = omega arith;
  x2i_buf = refl;
  x2i_size = refl;
  x2i_head_reg = reg_addr mbox_x2i_head_off slot;
  x2i_tail_reg = reg_addr mbox_x2i_tail_off slot;
  i2x_buf = refl;
  i2x_size = refl;
  i2x_head_reg = reg_addr mbox_i2x_head_off slot;
  i2x_tail_reg = reg_addr mbox_i2x_tail_off slot;
  x2i_empty = (refl, refl);
  i2x_empty = (refl, refl);
}

handle-create :
    (i : ℕ) (hdr : XdnaMsgHeader) (payload : List ℕ) (u : XdnaNpu)
    → hdr.opcode ≡ msg_op_create_context
    → u.fw_alive ≡ true
    → xdna_mert_handle i hdr payload u ≡ handle_create_context i hdr payload u
unfolding xdna_mert_handle dispatch
handle-create i hdr payload u e alive = rw (alive, e) refl

free-invalid : (c : XdnaContext) → is_free c ≡ true → c.valid ≡ false
free-invalid c e = ground (arith, e)

module _ (slot : ℕ) (req : CreateCtxReq) (s : XdnaNpu) (h : slot < npu1_hwctx_limit) where
  -- The device before the reply to the creation.
  abbrev made : XdnaNpu
  made = xdna_log log_info (fill_slot slot req (open_channel slot s))

  -- Only the channel of the slot is new.
  made-chan : Assigned s.chan made.chan (suc slot) (fresh_channel slot)
  unfolding clear
  made-chan =
      let P : XdnaNpu → Type 0 = λ t. Assigned s.chan t.chan (suc slot) (fresh_channel slot) in
      let a = opened-Assigned slot s.chan in
      let p : P (open_channel slot s) =
        open_channel-keeps P slot s h
          (if_keeps P (in_sram (slot_rb_base slot) sram_ctx_rb_stride) a a) in
      xdna_log-keeps P log_info (fill_slot slot req (open_channel slot s)) p p

  made-Safe : (s.ctx slot).valid ≡ false → Safe s → Safe made
  made-Safe free v =
      let p = create-Safe slot req s h free v in
      xdna_log-keeps Safe log_info (fill_slot slot req (open_channel slot s)) p p

-- What the driver needs to create a context: it is at rest, the request is valid and takes at most
-- half of the ring, and `slot` is the lowest free slot.
pub record AsksContext (slot : ℕ) (req : List ℕ) (d : Drv) (s : XdnaNpu) : Type 0 where
  pub idle : Idle d s
  pub handy : Handy req
  pub valid : ValidCreate (request_header msg_op_create_context req d) req
  pub free : LowestFree s slot

module _ (slot : ℕ) (req : List ℕ) (d : Drv) (s : XdnaNpu) (a : AsksContext slot req d s) where
  abbrev hdr : XdnaMsgHeader
  hdr = request_header msg_op_create_context req d

  h : Handed msg_op_create_context req d s
  h = hand msg_op_create_context req d s (omega arith) a.idle a.handy

  u-alive : h.u.fw_alive ≡ true
  u-alive = sym h.safe.0.mgmt ∙ ap (λ (c : XdnaChannel). c.active) h.chan ∙ a.idle.active

  u-free : LowestFree h.u slot
  u-free =
      subst (λ (f : ℕ → XdnaContext). IsFirst is_free f 0 npu1_hwctx_limit slot) (sym h.table.ctx)
        a.free

  abbrev before : XdnaNpu
  before = made slot (create_ctx_req req) h.u a.free.below

  before-chan : Assigned h.u.chan before.chan (suc slot) (fresh_channel slot)
  before-chan = made-chan slot (create_ctx_req req) h.u a.free.below

  abbrev resp : CreateCtxResp
  resp = create_resp slot s.next_ctx_id

  created : handle_create_context 0 hdr req h.u ≡ mert_reply 0 hdr (create_ctx_bytes resp) before
  unfolding create_in
  created =
      create_runs 0 hdr req h.u slot a.valid u-free
      ∙ (λ i. mert_reply 0 hdr (create_ctx_bytes (create_resp slot (h.table.next i))) before)

  before-ctx : before.ctx ≡ update s.ctx slot (new_context slot (create_ctx_req req) s.next_ctx_id)
  before-ctx =
      sym (reply-SameTable 0 hdr (create_ctx_bytes resp) before).ctx
      ∙ ap (λ (x : XdnaNpu). x.ctx) (sym created)
      ∙ (create_fills_slot 0 hdr req h.u slot a.valid u-free).0
      ∙ (λ i. update (h.table.ctx i) slot (new_context slot (create_ctx_req req) (h.table.next i)))

  -- A driver at rest that asks for a context with a valid request, of at most half a ring, while a
  -- slot is free, receives the response, under the id of its request. The context is then in the
  -- lowest free slot, the channel of the slot is open, empty, and where the response says, and the
  -- driver is at rest again.
  pub create_received :
      let r = mbox_send_recv msg_op_create_context req 76 d s in
      (r.0
        ≡ some (record {
          hdr = message_header 76 (request_id d) msg_op_create_context;
          resp = create_ctx_bytes resp;
        }))
      × Advertises resp (r.2.chan (suc slot))
      × (r.2.ctx ≡ update s.ctx slot (new_context slot (create_ctx_req req) s.next_ctx_id))
      × Idle r.1 r.2
  create_received =
      let k =
        replied msg_op_create_context req (create_ctx_bytes resp) d s a.idle (omega arith)
          (omega arith) (omega arith) h before
          (before-chan.other 0 (λ z. absurd (omega (arith, z))))
          (made-Safe slot (create_ctx_req req) h.u a.free.below
            (free-invalid (h.u.ctx slot) u-free.passes) h.safe)
          (handle-create 0 hdr req h.u refl u-alive ∙ created) in
      let there = k.others (suc slot) (λ z. absurd (omega (arith, z))) ∙ before-chan.here in
      (
        k.answer,
        rw there (fresh-Advertises slot s.next_ctx_id a.free.below),
        k.table.ctx ∙ before-ctx,
        k.idle,
      )
