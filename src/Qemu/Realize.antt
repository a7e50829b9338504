-- ===== src/Qemu/Realize.antt =====
-- Realizing the PCI device either makes it ready or leaves nothing behind.
use xdna1_npu_emulator.Prelude.{
  ℕ, ◌+◌, ◌≡◌, refl, sym, ◌∙◌, subst, ◌⊎◌, inl, inr, Bool, true, false, Option, none, some, List,
  [], ◌∷◌, arith, Bool-cases, if_elim,
}
use xdna1_npu_emulator.Regs.{bar_reg}
use xdna1_npu_emulator.State.{XdnaHostOps, XdnaNpu}
use xdna1_npu_emulator.Device.{npu_zero, xdna_npu_new}
use xdna1_npu_emulator.Device.Alloc.{Heap, calloc, alloc_npu, xdna_npu_free}
use xdna1_npu_emulator.Invariant.{Inv}
use xdna1_npu_emulator.Invariant.Reach.{reset-Inv}
use xdna1_npu_emulator.Qemu.{
  msix_vectors, msix_table_offset, msix_pba_offset, QemuCall, config_interrupt_pin, init_msix,
  uninit_msix, set_irq, set_error, Qemu, XdnaNpuState, call,
}
use xdna1_npu_emulator.Qemu.Callbacks.{xdna_host_ops}
use xdna1_npu_emulator.Qemu.Lifecycle.{
  new_emu, init_regions, register_bars, free_emu, fail_msix, use_vectors, realize_cap, realize_bars,
  xdna_npu_realize, xdna_npu_exit,
}

-- The calls that add or remove the MSI-X capability.
abbrev pub changes_msix : QemuCall → Bool
changes_msix (init_msix n tb to pb po) = true
changes_msix uninit_msix = true
changes_msix c = false

-- What QEMU documents of `msix_present`: the capability is gone after `msix_uninit`, and no other
-- call but `msix_init` changes whether there is one.
pub record MsixLaw (q : Qemu) : Type 0 where
  pub removed : (calls : List QemuCall) → q.msix_present (uninit_msix ∷ calls) ≡ false
  pub kept :
      (c : QemuCall) (calls : List QemuCall)
      → changes_msix c ≡ false
      → q.msix_present (c ∷ calls) ≡ q.msix_present calls

abbrev pub IsBalanced : ℕ → Heap → Type 0
IsBalanced blocks h = h.allocated ≡ h.freed + blocks

-- Nothing is held: no core, no memory, no MSI-X capability.
pub record Released (q : Qemu) (s : XdnaNpuState) : Type 0 where
  pub emu : s.emu ≡ none
  pub msix_initialized : s.msix_initialized ≡ false
  pub heap : IsBalanced 0 s.heap
  pub absent : q.msix_present s.calls ≡ false

-- The device is in use: it has the well-formed core, its two blocks of memory, and MSI-X.
pub record Ready (s : XdnaNpuState) (npu : XdnaNpu) : Type 0 where
  pub emu : s.emu ≡ some npu
  pub inv : Inv npu
  pub msix_initialized : s.msix_initialized ≡ true
  pub heap : IsBalanced 2 s.heap

pub alloc_npu-cases :
    (succeeds : ℕ → Bool) (ops : XdnaHostOps) (h : Heap)
    → IsBalanced 0 h
    → let r = alloc_npu succeeds ops h in
      ((r.0 ≡ none) × IsBalanced 0 r.1) ⊎ ((r.0 ≡ some (xdna_npu_new ops)) × IsBalanced 2 r.1)
unfolding alloc_npu calloc
alloc_npu-cases succeeds ops h b = elim (Bool-cases (succeeds h.asked)) [
  | inl e ↦ elim (Bool-cases (succeeds (h.asked + 1))) [
    | inl e' ↦ rw (e, e') (inr (refl, omega arith))
    | inr n' ↦ rw (e, n') (inl (refl, omega arith))
  ]
  | inr n ↦ rw n (inl (refl, omega arith))
]

pub new-Inv : (ops : XdnaHostOps) → Inv (xdna_npu_new ops)
unfolding xdna_npu_new
new-Inv ops = reset-Inv (npu_zero ops [])

-- A device whose core was just created.
record Created (s : XdnaNpuState) (npu : XdnaNpu) : Type 0 where
  emu : s.emu ≡ some npu
  inv : Inv npu
  msix_initialized : s.msix_initialized ≡ false
  heap : IsBalanced 2 s.heap

module _ (q : Qemu) (law : MsixLaw q) where
  free-IsBalanced :
      (o : Option XdnaNpu) (npu : XdnaNpu) (h : Heap)
      → o ≡ some npu
      → IsBalanced 2 h
      → IsBalanced 0 (xdna_npu_free o h)
  unfolding xdna_npu_free
  free-IsBalanced o npu h e b = rw e (omega arith)

  fail_msix-Released :
      (s : XdnaNpuState) (npu : XdnaNpu) → Created s npu → Released q (fail_msix q s)
  unfolding fail_msix
  fail_msix-Released s npu c =
      if_elim (λ (t : XdnaNpuState). Released q (free_emu t)) (q.msix_present s.calls)
        (λ _. record {
          emu = refl;
          msix_initialized = c.msix_initialized;
          heap = free-IsBalanced s.emu npu s.heap c.emu c.heap;
          absent = law.removed s.calls;
        })
        (λ e. record {
          emu = refl;
          msix_initialized = c.msix_initialized;
          heap = free-IsBalanced s.emu npu s.heap c.emu c.heap;
          absent = e;
        })

  realize_cap-cases :
      (s : XdnaNpuState) (npu : XdnaNpu)
      → Created s npu
      → Released q (realize_cap q s) ⊎ ((npu : XdnaNpu) × Ready (realize_cap q s) npu)
  unfolding realize_cap use_vectors
  realize_cap-cases s npu c =
      if_elim (λ (t : XdnaNpuState). Released q t ⊎ ((npu : XdnaNpu) × Ready t npu))
        (q.pcie_endpoint_cap_init (use_vectors 0 msix_vectors s).calls)
        (λ _.
          inr (npu, record { emu = c.emu; inv = c.inv; msix_initialized = refl; heap = c.heap }))
        (λ _. inl (record {
          emu = refl;
          msix_initialized = refl;
          heap = free-IsBalanced s.emu npu s.heap c.emu c.heap;
          absent = law.removed _;
        }))

  realize_bars-cases :
      (s : XdnaNpuState) (npu : XdnaNpu)
      → Created s npu
      → Released q (realize_bars q s) ⊎ ((npu : XdnaNpu) × Ready (realize_bars q s) npu)
  unfolding realize_bars register_bars
  realize_bars-cases s npu c =
      if_elim (λ (t : XdnaNpuState). Released q t ⊎ ((npu : XdnaNpu) × Ready t npu))
        (q.msix_init (register_bars (init_regions s)).calls) (λ _. realize_cap-cases _ npu made)
        (λ _. inl (fail_msix-Released _ npu made))
    where
      made :
          Created
            (call
              (init_msix msix_vectors bar_reg msix_table_offset bar_reg msix_pba_offset)
              (register_bars (init_regions s)))
            npu
      made = record {
        emu = c.emu;
        inv = c.inv;
        msix_initialized = c.msix_initialized;
        heap = c.heap;
      }

  -- A device that holds nothing is, after it was realized, ready for its guest with a well-formed
  -- core, or it holds nothing again, whichever of its two allocations, the setup of MSI-X and the
  -- setup of the PCIe capability has failed.
  pub realize-Ready_or_Released :
      (s : XdnaNpuState)
      → Released q s
      → Released q (xdna_npu_realize q s) ⊎ ((npu : XdnaNpu) × Ready (xdna_npu_realize q s) npu)
  unfolding xdna_npu_realize new_emu
  realize-Ready_or_Released s r = from (alloc_npu-cases q.succeeds (xdna_host_ops q) s.heap r.heap)
    where
      s1 : XdnaNpuState
      s1 = new_emu q (call (config_interrupt_pin 1) s)

      Goal : Option XdnaNpu → Type 0
      Goal o =
          let t : XdnaNpuState = elim o [
            | none ↦ call set_error s1
            | some npu ↦ realize_bars q s1
          ] in
          Released q t ⊎ ((npu : XdnaNpu) × Ready t npu)

      from :
          ((s1.emu ≡ none) × IsBalanced 0 s1.heap)
            ⊎ ((s1.emu ≡ some (xdna_npu_new (xdna_host_ops q))) × IsBalanced 2 s1.heap)
          → Goal s1.emu
      from (inl (e, b)) = subst Goal (sym e) (
          inl (record {
            emu = e;
            msix_initialized = r.msix_initialized;
            heap = b;
            absent =
                law.kept set_error _ refl ∙ law.kept (config_interrupt_pin 1) _ refl ∙ r.absent;
          }))
      from (inr (e, b)) = subst Goal (sym e) (
          realize_bars-cases s1 (xdna_npu_new (xdna_host_ops q)) (record {
            emu = e;
            inv = new-Inv (xdna_host_ops q);
            msix_initialized = r.msix_initialized;
            heap = b;
          }))

  -- A device that is ready holds nothing after its exit.
  pub exit-Released :
      (s : XdnaNpuState) (npu : XdnaNpu) → Ready s npu → Released q (xdna_npu_exit s)
  unfolding xdna_npu_exit
  exit-Released s npu r = rw r.msix_initialized (record {
    emu = refl;
    msix_initialized = refl;
    heap = free-IsBalanced s.emu npu s.heap r.emu r.heap;
    absent = law.kept (set_irq 0) _ refl ∙ law.removed s.calls;
  })
