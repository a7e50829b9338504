-- ===== src/Driver/Session/Served.antt =====
-- tests/test_boot.c: a session of the driver, from the start of the hardware on.
use xdna1_npu_emulator.Prelude.{
  ℕ, bit_and, bit_or, ◌≡◌, refl, ap, ◌∙◌, true, Option, some, List, [], ◌∷◌, arith, length, add32,
}
use xdna1_npu_emulator.Regs.{psp_status_ready, mbox_magic_val}
use xdna1_npu_emulator.Psp.{psp_peek_bytes}
use xdna1_npu_emulator.Driver.Session.{fw_paddr, new_drv, drv_hw_start}
use xdna1_npu_emulator.Driver.Send.Query.{Query, query-same}
use xdna1_npu_emulator.Driver.Session.Start.{Up, hw_starts}
use xdna1_npu_emulator.Driver.Session.Hand.{Idle, Handy}
use xdna1_npu_emulator.Driver.Session.Rounds.{round}
use xdna1_npu_emulator.Driver.Boot.{CanRead}
use xdna1_npu_emulator.State.{XdnaChannel, XdnaNpu}
use xdna1_npu_emulator.Mailbox.Send.{message_header}
use xdna1_npu_emulator.Invariant.{Safe}
use xdna1_npu_emulator.Driver.Receive.{Drv, Received}
use xdna1_npu_emulator.Driver.Send.{mbox_send_recv}

-- A query, and the answer that it should get.
pub record Ask : Type 0 where
  pub op : ℕ
  pub req : List ℕ
  pub reply : List ℕ

-- The driver makes the queries one after another.
abbrev pub ask_all : List Ask → Drv → XdnaNpu → List (Option Received) × Drv × XdnaNpu
ask_all [] d s = ([], d, s)
ask_all (a ∷ more) d s =
    let r = mbox_send_recv a.op a.req (length a.reply) d s in
    let rest = ask_all more r.1 r.2 in (r.0 ∷ rest.0, rest.1, rest.2)

-- The id that a request gets when the driver's next id is `n`.
abbrev pub id_from : ℕ → ℕ
id_from n = bit_or (bit_and n 0xFF) mbox_magic_val

-- Every query is answered, under its id.
abbrev pub answers : List Ask → ℕ → List (Option Received)
answers [] n = []
answers (a ∷ more) n =
    some (record { hdr = message_header (length a.reply) (id_from n) a.op; resp = a.reply })
    ∷ answers more (add32 n 1)

-- Each request is of whole words and takes at most half of the ring, and the answer is the right one.
abbrev pub AllRight : List Ask → XdnaNpu → Type 0
AllRight [] s = Unit {0}
AllRight (a ∷ more) s = Handy a.req × Query a.op a.req s a.reply × AllRight more s

AllRight-same :
    (xs : List Ask) (s u : XdnaNpu) → u.rt_cfg ≡ s.rt_cfg → AllRight xs s → AllRight xs u
AllRight-same [] s u e p = p
AllRight-same (a ∷ more) s u e p =
    (p.0, query-same a.op a.req a.reply s u e p.1, AllRight-same more s u e p.2)

all_answered :
    (xs : List Ask) (d : Drv) (s : XdnaNpu)
    → Idle d s
    → AllRight xs s
    → (ask_all xs d s).0 ≡ answers xs d.next_id
all_answered [] d s idle p = refl
all_answered (a ∷ more) d s idle p =
    let r = mbox_send_recv a.op a.req (length a.reply) d s in
    let k = round a.op a.req a.reply d s idle p.0 p.1 in
    let rest =
      all_answered more r.1 r.2 k.idle (AllRight-same more s r.2 k.same_config p.2)
      ∙ ap (answers more) k.next_id in
    λ i. k.answer i ∷ rest i

-- A driver that has just started the hardware is at rest.
Up-Idle : (d : Drv) (t : XdnaNpu) → Up d t → Idle d t
Up-Idle d t up = record {
  safe = up.safe;
  active = ap (λ (c : XdnaChannel). c.active) up.mgmt;
  feeds = rw up.mgmt up.knows.incoming;
  outgoing = rw up.mgmt up.knows.outgoing;
  drained = rw up.mgmt refl;
  read_all = rw up.mgmt refl;
  in_ring = rw up.mgmt (omega arith);
}

-- If the PSP is ready, the device is in order and the host lets the PSP read the start of the image, then a new
-- driver that starts the hardware is answered for as long as it asks: however many queries it makes,
-- for a version, the tiles, the telemetry or an entry of the configuration, in requests of whole words
-- of at most half a ring, it receives the answer to each one, in order and under the id of its
-- request, while both rings go round.
pub session_served :
    (s : XdnaNpu) (xs : List Ask)
    → s.scratch 2 ≡ psp_status_ready
    → CanRead s.ops fw_paddr psp_peek_bytes
    → Safe s
    → AllRight xs (drv_hw_start new_drv s).2
    → let r = drv_hw_start new_drv s in (r.0 ≡ true) × ((ask_all xs r.1 r.2).0 ≡ answers xs 1)
session_served s xs ready reads v p =
    let r = drv_hw_start new_drv s in
    let up = hw_starts s ready reads v in
    (up.0, all_answered xs r.1 r.2 (Up-Idle r.1 r.2 up.1) p ∙ ap (answers xs) up.1.next_id)
