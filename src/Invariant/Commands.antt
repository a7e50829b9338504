-- ===== src/Invariant/Commands.antt =====
-- The PSP and SMU kicks keep the invariants.
use xdna1_npu_emulator.Prelude.{ℕ, ◌≤◌, ◌≡◌, Bool, true}
use xdna1_npu_emulator.Regs.{npu1_max_dpm_level}
use xdna1_npu_emulator.State.{validated, running, XdnaNpu}
use xdna1_npu_emulator.Psp.{xdna_psp_kick}
use xdna1_npu_emulator.Psp.Kept.{PspKept, psp_kick-keeps}
use xdna1_npu_emulator.Smu.{xdna_smu_kick}
use xdna1_npu_emulator.Smu.Kept.{SmuKept, smu_kick-keeps}
use xdna1_npu_emulator.Invariant.{Inv, Safe}
use xdna1_npu_emulator.Invariant.Basic.{xdna_log-keeps}
use xdna1_npu_emulator.Invariant.Power.{fw_boot-Inv, fw_boot-Safe, release-Inv, release-Safe}

not_running : {alive : Bool} → validated ≡ running → alive ≡ true
not_running e = cc

pub accept-Inv :
    (paddr size : ℕ) (s : XdnaNpu)
    → Inv s
    → Inv (record s { fw_paddr = paddr; fw_size = size; psp_state = validated })
accept-Inv paddr size s w = record {
  index = w.index;
  rings = w.rings;
  closed = w.closed;
  mgmt = w.mgmt;
  slots = w.slots;
  ctx_chan = w.ctx_chan;
  runs = not_running;
  counted = w.counted;
  dpm_range = w.dpm_range;
}

pub dpm-Inv :
    (level : ℕ) (s : XdnaNpu)
    → level ≤ npu1_max_dpm_level
    → Inv s
    → Inv (record s { dpm_level = level })
dpm-Inv level s h w = record {
  index = w.index;
  rings = w.rings;
  closed = w.closed;
  mgmt = w.mgmt;
  slots = w.slots;
  ctx_chan = w.ctx_chan;
  runs = w.runs;
  counted = w.counted;
  dpm_range = h;
}

pub Inv-PspKept : PspKept Inv
Inv-PspKept = record {
  log = λ level s w. xdna_log-keeps Inv level s w w;
  asked = λ paddr n s w. w;
  asked_phys = λ paddr n s w. w;
  accept = accept-Inv;
  boot = fw_boot-Inv;
  release = release-Inv;
  regs = λ f s w. w;
  count = λ s w. w;
}

Safe-PspKept : PspKept Safe
Safe-PspKept = record {
  log = λ level s v. xdna_log-keeps Safe level s v v;
  asked = λ paddr n s v. v;
  asked_phys = λ paddr n s v. v;
  accept = λ paddr size s v. (accept-Inv paddr size s v.0, v.1);
  boot = fw_boot-Safe;
  release = release-Safe;
  regs = λ f s v. v;
  count = λ s v. v;
}

pub psp_kick-Inv : (s : XdnaNpu) → Inv s → Inv (xdna_psp_kick s)
psp_kick-Inv = psp_kick-keeps Inv-PspKept

pub psp_kick-Safe : (s : XdnaNpu) → Safe s → Safe (xdna_psp_kick s)
psp_kick-Safe = psp_kick-keeps Safe-PspKept

pub Inv-SmuKept : SmuKept Inv
Inv-SmuKept = record {
  log = λ level s w. xdna_log-keeps Inv level s w w;
  power = λ on s w. w;
  npuclk = λ v s w. w;
  hclk = λ v s w. w;
  dpm = dpm-Inv;
  regs = λ f s w. w;
  count = λ s w. w;
}

Safe-SmuKept : SmuKept Safe
Safe-SmuKept = record {
  log = λ level s v. xdna_log-keeps Safe level s v v;
  power = λ on s v. v;
  npuclk = λ x s v. v;
  hclk = λ x s v. v;
  dpm = λ level s h v. (dpm-Inv level s h v.0, v.1);
  regs = λ f s v. v;
  count = λ s v. v;
}

pub smu_kick-Inv : (s : XdnaNpu) → Inv s → Inv (xdna_smu_kick s)
smu_kick-Inv = smu_kick-keeps Inv-SmuKept

pub smu_kick-Safe : (s : XdnaNpu) → Safe s → Safe (xdna_smu_kick s)
smu_kick-Safe = smu_kick-keeps Safe-SmuKept
