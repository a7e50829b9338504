-- ===== src/Driver/Send/Query.antt =====
-- tests/test_boot.c against src/xdna_mert.c: the driver asks, and receives the answer.
use xdna1_npu_emulator.Driver.Send.Answered.{consume-alive, consume-SameTable, CanAsk, receives}
use xdna1_npu_emulator.Driver.Send.Reaches.{request_header, Sendable, with_request, consumed-Safe}
use xdna1_npu_emulator.Mert.{
  tile_info, protocol_version, firmware_version, aie_version, telemetry, runtime_config,
  handle_get_runtime_config, dispatch, xdna_mert_handle,
}
use xdna1_npu_emulator.Driver.Send.{request_id, mbox_send_recv}
use xdna1_npu_emulator.Driver.Receive.{Drv}
use xdna1_npu_emulator.Prelude.{
  ℕ, ◌+◌, ◌^◌, ◌≤◌, ◌<◌, ◌≡◌, refl, sym, ap, ◌∙◌, true, some, List, arith, le→ltb, length, u32_at,
}
use xdna1_npu_emulator.State.{XdnaNpu}
use xdna1_npu_emulator.Mailbox.Process.{consume}
use xdna1_npu_emulator.Mert.Reply.{mert_reply}
use xdna1_npu_emulator.Invariant.{ring_size, Safe}
use xdna1_npu_emulator.Driver.Receive.Access.{Attached}
use xdna1_npu_emulator.Regs.Opcodes.{
  msg_op_get_telemetry, msg_op_query_aie_tile_info, msg_op_query_aie_version,
  msg_op_get_firmware_version, msg_op_get_runtime_config, msg_op_get_protocol_version,
  aie2_status_success,
}
use xdna1_npu_emulator.Mailbox.Send.{header_size, message_header}
use xdna1_npu_emulator.Mert.Wire.{
  protocol_version_bytes, firmware_version_bytes, aie_version_bytes, tile_info_resp_bytes,
  runtime_cfg_bytes, telemetry_bytes,
}

-- The requests that change nothing, with the answer that the driver should get. An entry of the
-- runtime configuration is answered with its value, or with a status where there is none.
pub data Query (op : ℕ) (req : List ℕ) (s : XdnaNpu) (reply : List ℕ) : Type 0 where
  protocol :
      op ≡ msg_op_get_protocol_version
      → reply ≡ protocol_version_bytes protocol_version
      → Query op req s reply
  firmware :
      op ≡ msg_op_get_firmware_version
      → reply ≡ firmware_version_bytes firmware_version
      → Query op req s reply
  aie : op ≡ msg_op_query_aie_version → reply ≡ aie_version_bytes aie_version → Query op req s reply
  tile :
      op ≡ msg_op_query_aie_tile_info
      → reply ≡ tile_info_resp_bytes (record { status = aie2_status_success; info = tile_info })
      → Query op req s reply
  telemetry_size :
      op ≡ msg_op_get_telemetry → reply ≡ telemetry_bytes telemetry → Query op req s reply
  config :
      op ≡ msg_op_get_runtime_config
      → 4 ≤ length req
      → reply ≡ runtime_cfg_bytes (runtime_config (u32_at req 0) s)
      → Query op req s reply

pub handle-query :
    (i id op : ℕ) (req reply : List ℕ) (u : XdnaNpu)
    → Query op req u reply
    → u.fw_alive ≡ true
    → let hdr = message_header (length req) id op in
      xdna_mert_handle i hdr req u ≡ mert_reply i hdr reply u
unfolding xdna_mert_handle dispatch handle_get_runtime_config
handle-query i id op req reply u (protocol e r) alive = rw (alive, e, r) refl
handle-query i id op req reply u (firmware e r) alive = rw (alive, e, r) refl
handle-query i id op req reply u (aie e r) alive = rw (alive, e, r) refl
handle-query i id op req reply u (tile e r) alive = rw (alive, e, r) refl
handle-query i id op req reply u (telemetry_size e r) alive = rw (alive, e, r) refl
handle-query i id op req reply u (config e l r) alive =
    rw (alive, e, r, le→ltb (length req) 4 l) refl

pub query-length :
    (op : ℕ) (req reply : List ℕ) (s : XdnaNpu) → Query op req s reply → 0 < length reply
query-length op req reply s (protocol e r) = rw r (omega arith)
query-length op req reply s (firmware e r) = rw r (omega arith)
query-length op req reply s (aie e r) = rw r (omega arith)
query-length op req reply s (tile e r) = rw r (omega arith)
query-length op req reply s (telemetry_size e r) = rw r (omega arith)
query-length op req reply s (config e l r) = rw r (omega arith)

pub query-same :
    (op : ℕ) (req reply : List ℕ) (s u : XdnaNpu)
    → u.rt_cfg ≡ s.rt_cfg
    → Query op req s reply
    → Query op req u reply
query-same op req reply s u same (protocol e r) = protocol e r
query-same op req reply s u same (firmware e r) = firmware e r
query-same op req reply s u same (aie e r) = aie e r
query-same op req reply s u same (tile e r) = tile e r
query-same op req reply s u same (telemetry_size e r) = telemetry_size e r
query-same op req reply s u same (config e l r) = config e l (
    r
    ∙ ap
        (λ (f : ℕ → ℕ). runtime_cfg_bytes (runtime_config (u32_at req 0) (record s { rt_cfg = f })))
        (sym same))

-- What the driver needs for a query: the firmware runs, the device is in order, the driver knows both
-- rings of the channel and has read everything, and the answer fits behind the tail.
pub record Asks (i op : ℕ) (req reply : List ℕ) (d : Drv) (s : XdnaNpu) : Type 0 where
  pub safe : Safe s
  pub alive : s.fw_alive ≡ true
  pub request : Sendable i op req d s
  pub query : Query op req s reply
  pub opcode : op < 2 ^ 32
  pub id : request_id d < 2 ^ 32
  pub outgoing : Attached i (s.chan i) d
  pub read_all : (s.chan i).i2x_head ≡ (s.chan i).i2x_tail
  pub fits : (s.chan i).i2x_tail + header_size + length reply + 4 ≤ ring_size i

module _ (i op : ℕ) (req reply : List ℕ) (d : Drv) (s : XdnaNpu) (a : Asks i op req reply d s) where
  abbrev u : XdnaNpu
  u = consume i (length req) (with_request i op req d s)

  handled :
      xdna_mert_handle i (request_header op req d) req u
      ≡ mert_reply i (request_header op req d) reply u
  handled =
      let primed = with_request i op req d s in
      handle-query i (request_id d) op req reply u
        (query-same op req reply s u (consume-SameTable i (length req) primed).config a.query)
        (consume-alive i (length req) primed ∙ a.alive)

  asks-CanAsk : CanAsk i op req (length reply) d s
  asks-CanAsk = record {
    safe = a.safe;
    request = a.request;
    outgoing = a.outgoing;
    read_all = a.read_all;
    some_bytes = query-length op req reply s a.query;
    fits = a.fits;
  }

  -- If the firmware runs and the device is in order, the driver knows both rings of a channel and
  -- has read everything, and request and answer fit behind the tails, then the driver that asks for a
  -- version, the tiles, the telemetry or an entry of the configuration receives the answer: the
  -- payload, under the id and the opcode of its request.
  pub query_answered :
      (mbox_send_recv op req (length reply) d s).0
      ≡ some (record { hdr = message_header (length reply) (request_id d) op; resp = reply })
  query_answered =
      receives i op req reply d s asks-CanAsk u refl
        (consumed-Safe i op req d s a.safe.0 a.request a.safe) handled
