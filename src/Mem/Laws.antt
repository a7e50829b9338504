-- ===== src/Mem/Laws.antt =====
-- What is read back after a write, inside and outside the written range.
use xdna1_npu_emulator.Prelude.{
  ℕ, zero, suc, ◌+◌, ◌-◌, ◌≤◌, ◌<◌, ◌≡◌, refl, ap, ◌∙◌, ◌⊎◌, inl, inr, List, [], ◌∷◌, length,
  get_or, arith,
}
use xdna1_npu_emulator.Mem.{Mem, read_bytes, write_bytes, fill_bytes}

pub write_bytes_outside :
    (m : Mem) (off : ℕ) (bs : List ℕ) (a : ℕ)
    → (a < off) ⊎ (off + length bs ≤ a)
    → write_bytes m off bs a ≡ m a
unfolding write_bytes
write_bytes_outside m off bs a h = ground arith

pub write_bytes_inside :
    (m : Mem) (off : ℕ) (bs : List ℕ) (a : ℕ)
    → off ≤ a
    → a < off + length bs
    → write_bytes m off bs a ≡ get_or bs (a - off) 0
unfolding write_bytes
write_bytes_inside m off bs a h k = ground arith

pub fill_bytes_outside :
    (m : Mem) (off v len a : ℕ) → (a < off) ⊎ (off + len ≤ a) → fill_bytes m off v len a ≡ m a
unfolding fill_bytes
fill_bytes_outside m off v len a h = ground arith

-- Two memories that agree on a range read the same bytes from it.
pub read_bytes_agree :
    (m k : Mem) (off n : ℕ)
    → ((a : ℕ) → off ≤ a → a < off + n → m a ≡ k a)
    → read_bytes m off n ≡ read_bytes k off n
unfolding read_bytes
read_bytes_agree m k off zero h = refl
read_bytes_agree m k off (suc n) h = λ i.
    h off (omega arith) (omega arith) i
    ∷ read_bytes_agree m k (off + 1) n (λ a p q. h a (omega arith) (omega arith)) i

pub length-read_bytes : (m : Mem) (off n : ℕ) → length (read_bytes m off n) ≡ n
unfolding read_bytes
length-read_bytes m off zero = refl
length-read_bytes m off (suc n) = ap suc (length-read_bytes m (off + 1) n)

pub get_or-read_bytes :
    (m : Mem) (off n i : ℕ) → i < n → get_or (read_bytes m off n) i 0 ≡ m (off + i)
unfolding read_bytes
get_or-read_bytes m off zero i h = absurd (omega arith)
get_or-read_bytes m off (suc n) zero h = ap m (omega arith)
get_or-read_bytes m off (suc n) (suc i) h =
    get_or-read_bytes m (off + 1) n i (omega arith) ∙ ap m (omega arith)

-- A suffix of the written bytes is read back from where it was put.
read_bytes-suffix :
    (m : Mem) (bs : List ℕ) (off : ℕ)
    → ((j : ℕ) → j < length bs → m (off + j) ≡ get_or bs j 0)
    → read_bytes m off (length bs) ≡ bs
unfolding read_bytes
read_bytes-suffix m [] off h = refl
read_bytes-suffix m (b ∷ bs) off h =
    let rest : read_bytes m (off + 1) (length bs) ≡ bs =
      read_bytes-suffix m bs (off + 1) (λ j p. ap m (shift j) ∙ h (suc j) (omega arith)) in
    λ i. (ap m here ∙ h 0 (omega arith)) i ∷ rest i
  where
    here : off ≡ off + 0
    here = omega arith

    shift : (j : ℕ) → off + 1 + j ≡ off + suc j
    shift j = omega arith

-- What was written is read back.
pub read_bytes-write_bytes :
    (m : Mem) (off : ℕ) (bs : List ℕ) → read_bytes (write_bytes m off bs) off (length bs) ≡ bs
read_bytes-write_bytes m off bs = read_bytes-suffix (write_bytes m off bs) bs off (λ j p.
    write_bytes_inside m off bs (off + j) (omega arith) (omega arith)
    ∙ ap (λ k. get_or bs k 0) (same j))
  where
    same : (j : ℕ) → off + j - off ≡ j
    same j = omega arith

-- A write elsewhere does not show.
pub read_bytes-write_bytes_disjoint :
    (m : Mem) (off : ℕ) (bs : List ℕ) (at n : ℕ)
    → (at + n ≤ off) ⊎ (off + length bs ≤ at)
    → read_bytes (write_bytes m off bs) at n ≡ read_bytes m at n
read_bytes-write_bytes_disjoint m off bs at n h =
    read_bytes_agree (write_bytes m off bs) m at n (λ a p q.
      write_bytes_outside m off bs a
        (elim h [ inl x ↦ inl (omega arith) | inr y ↦ inr (omega arith) ]))
