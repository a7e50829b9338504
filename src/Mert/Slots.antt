-- ===== src/Mert/Slots.antt =====
-- What the loops over the context slots find.
use xdna1_npu_emulator.Prelude.{
  ℕ, zero, suc, ◌+◌, ◌≤◌, ◌<◌, ◌≡◌, inl, inr, Bool, true, false, none, some, arith, ◌==◌, ==→eq,
  ==→ne, Bool-cases,
}
use xdna1_npu_emulator.State.{XdnaContext}
use xdna1_npu_emulator.Mert.Context.{first_slot}

-- `k` is the first slot from `i` on that passes the test.
pub record IsFirst (test : XdnaContext → Bool) (ctx : ℕ → XdnaContext) (i n k : ℕ) : Type 0 where
  pub from : i ≤ k
  pub below : k < i + n
  pub passes : test (ctx k) ≡ true
  pub before : (j : ℕ) → i ≤ j → j < k → test (ctx j) ≡ false

module _ (test : XdnaContext → Bool) (ctx : ℕ → XdnaContext) where
  -- A slot that fails the test may be put in front.
  IsFirst-step :
      {i n k : ℕ}
      → test (ctx i) ≡ false
      → IsFirst test ctx (suc i) n k
      → IsFirst test ctx i (suc n) k
  IsFirst-step {i} no_match f = record {
    from = omega arith;
    below = omega arith;
    passes = f.passes;
    before = λ j h l. elim (Bool-cases (j == i)) [
      | inl e ↦ rw (==→eq j i e) no_match
      | inr n ↦ f.before j (omega (arith, ==→ne j i n)) l
    ];
  }

  pub first_slot-some : (i n k : ℕ) → first_slot test ctx i n ≡ some k → IsFirst test ctx i n k
  unfolding first_slot
  first_slot-some i zero k e = cc
  first_slot-some i (suc n) k e = elim (Bool-cases (test (ctx i))) [
    | inl t ↦
        let same : i ≡ k = ground arith in
        record {
          from = omega arith;
          below = omega arith;
          passes = rw (← same) t;
          before = λ j h l. absurd (omega arith);
        }
    | inr t ↦ IsFirst-step t (first_slot-some (suc i) n k (ground arith))
  ]

  pub first_slot-none :
      (i n : ℕ)
      → first_slot test ctx i n ≡ none
      → (j : ℕ) → i ≤ j
      → j < i + n
      → test (ctx j) ≡ false
  unfolding first_slot
  first_slot-none i zero e j h l = absurd (omega arith)
  first_slot-none i (suc n) e j h l = elim (Bool-cases (test (ctx i))) [
    | inl t ↦ absurd (ground arith)
    | inr t ↦ elim (Bool-cases (j == i)) [
      | inl same ↦ rw (==→eq j i same) t
      | inr other ↦
          first_slot-none (suc i) n (ground arith) j (omega (arith, ==→ne j i other)) (omega arith)
    ]
  ]

  -- A slot that passes the test is found, unless one before it does.
  pub first_slot-finds : (i n k : ℕ) → IsFirst test ctx i n k → first_slot test ctx i n ≡ some k
  unfolding first_slot
  first_slot-finds i zero k f = absurd (omega arith)
  first_slot-finds i (suc n) k f = elim (Bool-cases (k == i)) [
    | inl e ↦ let same : i ≡ k = omega (arith, ==→eq k i e) in rw (same, f.passes)
    | inr o ↦
        let past : suc i ≤ k = omega (arith, ==→ne k i o) in
        rw (f.before i (omega arith) past) (
          first_slot-finds (suc i) n k (record {
            from = past;
            below = omega arith;
            passes = f.passes;
            before = λ j h l. f.before j (omega arith) l;
          }))
  ]
