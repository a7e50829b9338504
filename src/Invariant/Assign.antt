-- ===== src/Invariant/Assign.antt =====
-- An assignment to a context slot together with its channel.
use xdna1_npu_emulator.Prelude.{
  ℕ, zero, suc, ◌+◌, ◌≤◌, ◌<◌, ◌≡◌, refl, ◌∙◌, ◌≢◌, inl, inr, Bool, true, false, arith, ◌==◌,
  if◌then◌else◌, ==→eq, ==→ne, eq→==, ne→==, Bool-cases,
}
use xdna1_npu_emulator.Regs.{npu1_hwctx_limit}
use xdna1_npu_emulator.State.{XdnaChannel, XdnaContext, XdnaPspState, max_channels, update}
use xdna1_npu_emulator.Invariant.{RingAt, count_valid, WellFormed}

-- `g` is `f` with the value `v` at index `i`.
pub record Assigned {ℓ} {A : Type ℓ} (f g : ℕ → A) (i : ℕ) (v : A) : Type ℓ where
  pub here : g i ≡ v
  pub other : (j : ℕ) → j ≢ i → g j ≡ f j

pub update-Assigned {ℓ} : {A : Type ℓ} (f : ℕ → A) (i : ℕ) (v : A) → Assigned f (update f i v) i v
update-Assigned f i v = record { here = rw (eq→== i i refl); other = λ j h. rw (ne→== j i h) }

pub Assigned-Assigned {ℓ} :
    {A : Type ℓ} {f g h : ℕ → A} {i : ℕ} {u v : A}
    → Assigned f g i u
    → Assigned g h i v
    → Assigned f h i v
Assigned-Assigned a b = record { here = b.here; other = λ j n. b.other j n ∙ a.other j n }

pub Assigned-elim {ℓ κ} :
    {A : Type ℓ} (P : ℕ → A → Type κ) {f g : ℕ → A} {i : ℕ} {v : A}
    → Assigned f g i v
    → P i v
    → ((j : ℕ) → P j (f j))
    → (j : ℕ) → P j (g j)
Assigned-elim P {i = i} {v = v} a new old j = elim (Bool-cases (j == i)) [
  | inl e ↦ let same : j ≡ i = ==→eq j i e in rw same (rw a.here new)
  | inr n ↦ rw (a.other j (==→ne j i n)) (old j)
]

abbrev one_if : Bool → ℕ
one_if b = if b then 1 else 0

module _ {ctx ctx' : ℕ → XdnaContext} {slot : ℕ} {v : XdnaContext}
    (a : Assigned ctx ctx' slot v) where
  count-below : (n : ℕ) → n ≤ slot → count_valid ctx' n ≡ count_valid ctx n
  count-below zero h = refl
  count-below (suc n) h = rw (a.other n (omega arith), count-below n (omega arith))

  -- The count changes as the slot does.
  pub count-Assigned :
      (n : ℕ)
      → slot < n
      → count_valid ctx' n + one_if (ctx slot).valid ≡ count_valid ctx n + one_if v.valid
  count-Assigned zero h = absurd (omega arith)
  count-Assigned (suc n) h = elim (Bool-cases (n == slot)) [
    | inl e ↦
        let same : n ≡ slot = ==→eq n slot e in
        rw (same, a.here, count-below slot (omega arith)) (omega arith)
    | inr o ↦
        let ne : n ≢ slot = ==→ne n slot o in
        rw (a.other n ne) (omega (arith, count-Assigned n (omega (arith, ne))))
  ]

pub count-le : (ctx : ℕ → XdnaContext) (n : ℕ) → count_valid ctx n ≤ n
count-le ctx zero = omega arith
count-le ctx (suc n) = ground (arith, count-le ctx n)

pub count-same :
    (ctx' ctx : ℕ → XdnaContext)
    → ((k : ℕ) → (ctx' k).valid ≡ (ctx k).valid)
    → (n : ℕ) → count_valid ctx' n ≡ count_valid ctx n
count-same ctx' ctx same zero = refl
count-same ctx' ctx same (suc n) = rw (same n, count-same ctx' ctx same n)

module _ {chan chan' : ℕ → XdnaChannel} {ctx ctx' : ℕ → XdnaContext} {alive : Bool}
    {psp : XdnaPspState} {contexts contexts' dpm : ℕ} {slot : ℕ} {c : XdnaChannel} {v : XdnaContext}
    (w : WellFormed chan ctx alive psp contexts dpm) (ac : Assigned chan chan' (suc slot) c)
    (av : Assigned ctx ctx' slot v) where
  -- The slot and its channel stay in step.
  pub assign-WellFormed :
      c.index ≡ suc slot
      → (c.active ≡ true → RingAt (suc slot) c)
      → (c.active ≡ false → c.x2i_size ≡ 0)
      → c.active ≡ v.valid
      → (v.valid ≡ true → v.chan ≡ suc slot)
      → contexts' ≡ count_valid ctx' npu1_hwctx_limit
      → WellFormed chan' ctx' alive psp contexts' dpm
  assign-WellFormed index rings closed active at count = record {
    index = Assigned-elim (λ j d. j < max_channels → d.index ≡ j) ac (λ _. index) w.index;
    rings =
        Assigned-elim (λ j d. j < max_channels → d.active ≡ true → RingAt j d) ac (λ _. rings)
          w.rings;
    closed =
        Assigned-elim (λ j d. j < max_channels → d.active ≡ false → d.x2i_size ≡ 0) ac (λ _. closed)
          w.closed;
    mgmt = rw (ac.other 0 (omega arith)) w.mgmt;
    slots = λ k h. elim (Bool-cases (k == slot)) [
      | inl e ↦ rw (==→eq k slot e, ac.here, av.here) active
      | inr n ↦
          let ne : k ≢ slot = ==→ne k slot n in
          rw (ac.other (suc k) (omega (arith, ne)), av.other k ne) (w.slots k h)
    ];
    ctx_chan =
        Assigned-elim (λ k d. k < npu1_hwctx_limit → d.valid ≡ true → d.chan ≡ suc k) av (λ _. at)
          w.ctx_chan;
    runs = w.runs;
    counted = count;
    dpm_range = w.dpm_range;
  }
