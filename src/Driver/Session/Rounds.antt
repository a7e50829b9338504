-- ===== src/Driver/Session/Rounds.antt =====
-- tests/test_boot.c: a query of a driver at rest, as its rings go round.
use xdna1_npu_emulator.Driver.Session.Replies.{replied}
use xdna1_npu_emulator.Driver.Send.Query.{
  Query, protocol, firmware, aie, tile, telemetry_size, config, handle-query, query-length,
  query-same,
}
use xdna1_npu_emulator.Driver.Session.Hand.{Idle, Handy, hand}
use xdna1_npu_emulator.Prelude.{
  ℕ, ◌^◌, ◌≤◌, ◌<◌, ◌≡◌, refl, sym, ap, ◌∙◌, true, Option, some, List, arith, length, add32,
}
use xdna1_npu_emulator.State.{XdnaChannel, XdnaNpu}
use xdna1_npu_emulator.Mailbox.Send.{message_header}
use xdna1_npu_emulator.Driver.Receive.{Drv, Received}
use xdna1_npu_emulator.Driver.Send.{request_id, mbox_send_recv}

pub query-small :
    (op : ℕ) (req reply : List ℕ) (s : XdnaNpu)
    → Query op req s reply
    → (op < 2 ^ 32) × (length reply ≤ 128)
query-small op req reply s (protocol e r) = rw (e, r) (omega arith, omega arith)
query-small op req reply s (firmware e r) = rw (e, r) (omega arith, omega arith)
query-small op req reply s (aie e r) = rw (e, r) (omega arith, omega arith)
query-small op req reply s (tile e r) = rw (e, r) (omega arith, omega arith)
query-small op req reply s (telemetry_size e r) = rw (e, r) (omega arith, omega arith)
query-small op req reply s (config e l r) = rw (e, r) (omega arith, omega arith)

-- What a round leaves: the answer, a driver and a device at rest, the configuration as it was, and
-- the next id.
pub record Round (op : ℕ) (reply : List ℕ) (d : Drv) (s : XdnaNpu)
    (r : Option Received × Drv × XdnaNpu) : Type 0 where
  pub answer :
      r.0 ≡ some (record { hdr = message_header (length reply) (request_id d) op; resp = reply })
  pub idle : Idle r.1 r.2
  pub same_config : r.2.rt_cfg ≡ s.rt_cfg
  pub next_id : r.1.next_id ≡ add32 d.next_id 1

module _ (op : ℕ) (req reply : List ℕ) (d : Drv) (s : XdnaNpu) (idle : Idle d s) (r : Handy req)
    (query : Query op req s reply) where
  -- A query of a driver at rest is answered, and driver and device are at rest again.
  pub round : Round op reply d s (mbox_send_recv op req (length reply) d s)
  round =
      let small = query-small op req reply s query in
      let h = hand op req d s small.0 idle r in
      let active : (h.u.chan 0).active ≡ true =
        ap (λ (c : XdnaChannel). c.active) h.chan ∙ idle.active in
      let k =
        replied op req reply d s idle small.0 (query-length op req reply s query) small.1 h h.u refl
          h.safe
          (handle-query 0 (request_id d) op req reply h.u
            (query-same op req reply s h.u h.table.config query) (sym h.safe.0.mgmt ∙ active)) in
      record {
        answer = k.answer;
        idle = k.idle;
        same_config = k.table.config ∙ h.table.config;
        next_id = k.next_id;
      }
