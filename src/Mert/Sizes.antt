-- ===== src/Mert/Sizes.antt =====
-- The status of a reply fits into the size that its opcode asks for.
use xdna1_npu_emulator.Prelude.{
  ℕ, ◌+◌, ◌-◌, ◌≤◌, ◌≡◌, ◌++◌, arith, length, replicate, length-append, length-replicate, u32_bytes,
}
use xdna1_npu_emulator.Mert.Reply.{resp_size_for, status_bytes}

-- The largest reply, CreateCtxResp, has 76 bytes.
pub resp_size_bounds :
    (opcode : ℕ)
    → ((resp_size_for opcode).1 + 4 ≤ (resp_size_for opcode).0) × ((resp_size_for opcode).0 ≤ 76)
unfolding resp_size_for
resp_size_bounds opcode = ground arith

pub length-status_bytes :
    (r : ℕ × ℕ) (status : ℕ) → r.1 + 4 ≤ r.0 → length (status_bytes r status) ≡ r.0
length-status_bytes r status h = omega (
  arith,
  length-append (replicate r.1 0 ++ u32_bytes status) (replicate (r.0 - r.1 - 4) 0),
  length-append (replicate r.1 0) (u32_bytes status),
  length-replicate {0} {A = ℕ} r.1 0,
  length-replicate {0} {A = ℕ} (r.0 - r.1 - 4) 0,
)

pub length-status_reply :
    (opcode status : ℕ)
    → length (status_bytes (resp_size_for opcode) status) ≡ (resp_size_for opcode).0
length-status_reply opcode status =
    length-status_bytes (resp_size_for opcode) status (resp_size_bounds opcode).0
