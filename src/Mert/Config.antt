-- ===== src/Mert/Config.antt =====
-- src/xdna_mert.c: the runtime configuration.
use xdna1_npu_emulator.Prelude.{
  ℕ, ◌≤◌, ◌<◌, ◌≡◌, ap, List, ◌++◌, ◌==◌, if◌then◌else◌, le→ltb, lt→leb, u32_bytes, u64_bytes,
  u32_at,
}
use xdna1_npu_emulator.Regs.Opcodes.{aie2_status_success}
use xdna1_npu_emulator.State.{XdnaMsgHeader, XdnaNpu, update, log_debug, xdna_log}
use xdna1_npu_emulator.Mert.Wire.{set_runtime_cfg_req}
use xdna1_npu_emulator.Mert.Reply.{mert_reply}
use xdna1_npu_emulator.Mert.Table.{SameTable-trans, log-SameTable, status-SameTable}
use xdna1_npu_emulator.Mert.{rt_cfg_count, handle_set_runtime_config, handle_get_runtime_config}

module _ (chan : ℕ) (hdr : XdnaMsgHeader) (payload : List ℕ) (s : XdnaNpu)
    (long : 12 ≤ hdr.total_size) (known : (set_runtime_cfg_req payload).type < 64) where
  set_config_sets :
      let req = set_runtime_cfg_req payload in
      (handle_set_runtime_config chan hdr payload s).rt_cfg ≡ update s.rt_cfg req.type req.value
  unfolding handle_set_runtime_config
  set_config_sets =
      let req = set_runtime_cfg_req payload in
      let u : XdnaNpu = record s { rt_cfg = update s.rt_cfg req.type req.value } in
      rw (le→ltb hdr.total_size 12 long, lt→leb rt_cfg_count req.type known)
        (SameTable-trans (log-SameTable log_debug u)
          (status-SameTable chan hdr aie2_status_success (xdna_log log_debug u))).config

  -- After a valid write of an entry, a read of any entry in range is answered with success and the
  -- value written, if it is that entry, and with the value that it had before, if it is another.
  pub get-set_config :
      (get_chan : ℕ) (get_hdr : XdnaMsgHeader) (get_payload : List ℕ)
      → 4 ≤ get_hdr.total_size
      → u32_at get_payload 0 < 64
      → let t = handle_set_runtime_config chan hdr payload s in
        let req = set_runtime_cfg_req payload in
        let entry = u32_at get_payload 0 in
        let value = if entry == req.type then req.value else s.rt_cfg entry in
        handle_get_runtime_config get_chan get_hdr get_payload t
        ≡ mert_reply get_chan get_hdr (u32_bytes aie2_status_success ++ u64_bytes value) t
  unfolding handle_get_runtime_config
  get-set_config get_chan get_hdr get_payload long_enough in_range =
      let t = handle_set_runtime_config chan hdr payload s in
      let entry = u32_at get_payload 0 in
      rw (le→ltb get_hdr.total_size 4 long_enough, lt→leb rt_cfg_count entry in_range)
        (ap
          (λ (f : ℕ → ℕ).
            mert_reply get_chan get_hdr (u32_bytes aie2_status_success ++ u64_bytes (f entry)) t)
          set_config_sets)
