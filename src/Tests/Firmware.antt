-- ===== src/Tests/Firmware.antt =====
-- Results on the firmware, the PSP and the SMU, at concrete requests.
use xdna1_npu_emulator.Prelude.{
  ℕ, ◌+◌, ◌-◌, ◌*◌, ◌≤◌, ◌<◌, ◌≡◌, refl, sym, ◌∙◌, ◌⊎◌, inl, Bool, true, false, none, List, [], ◌∷◌,
  ◌++◌, arith, ◌==◌, if◌then◌else◌, replicate, add32, u16_bytes, u32_bytes, u64_bytes,
}
use xdna1_npu_emulator.Regs.{psp_status_ready, smu_result_ok}
use xdna1_npu_emulator.Regs.Opcodes.{aie2_status_success, aie2_status_aie_dma_error}
use xdna1_npu_emulator.State.{
  HostEvent, XdnaMsgHeader, XdnaNpu, update, xdna_log, store, clear, xdna_sram_write32,
}
use xdna1_npu_emulator.Mert.Wire.{create_ctx_req, ColumnInfoReq}
use xdna1_npu_emulator.Mert.Reply.{mert_reply, resp_size_for}
use xdna1_npu_emulator.Mert.Context.{ctx_by_id, handle_create_context, handle_destroy_context}
use xdna1_npu_emulator.Mert.Dump.{run_dump, dump_status}
use xdna1_npu_emulator.Mert.{handle_set_runtime_config, handle_get_runtime_config, xdna_mert_handle}
use xdna1_npu_emulator.Mailbox.Channel.{xdna_mbox_channel_reset, reset_from, xdna_mbox_reset}
use xdna1_npu_emulator.Mailbox.Send.{
  header_size, is_full, put_tombstone, put_message, notify, deliver, xdna_mbox_send,
}
use xdna1_npu_emulator.Firmware.{open_mgmt, publish_info, xdna_fw_boot}
use xdna1_npu_emulator.Psp.{xdna_psp_kick}
use xdna1_npu_emulator.Smu.{smu_result_fail, xdna_smu_kick}
use xdna1_npu_emulator.Device.{xdna_npu_reset, xdna_npu_new}
use xdna1_npu_emulator.Firmware.Boot.{Published, boot_publishes}
use xdna1_npu_emulator.Tests.States.{fresh, ready, ready-Safe, ready-active}
use xdna1_npu_emulator.Mert.Answer.Dispatch.{Replied, handle_answers}
use xdna1_npu_emulator.Mert.Lifecycle.{ValidCreate, LowestFree, new_context, create_fills_slot}
use xdna1_npu_emulator.Mert.Lifetime.{destroy-create}
use xdna1_npu_emulator.Mert.Dump.Loop.{blocks, accepts_block, accepts_all, dump_ends}
use xdna1_npu_emulator.Psp.Steps.{PspStep, psp_kick_steps}
use xdna1_npu_emulator.Smu.Settings.{is_accepted, smu_kick_responds, smu_kick_sets}
use xdna1_npu_emulator.Mert.Config.{get-set_config}

boot_publishes_example : Published (xdna_fw_boot fresh)
boot_publishes_example = boot_publishes fresh

-- A request for three columns.
abbrev request_create : XdnaMsgHeader
request_create = record { total_size = 28; sz_ver = 0x1001C; id = 9; opcode = 2 }

abbrev three_columns : List ℕ
three_columns = u32_bytes 0 ++ (1 ∷ 3 ∷ 0 ∷ 0 ∷ 1 ∷ 0 ∷ []) ++ u16_bytes 77 ++ replicate 16 0

abbrev request_destroy : XdnaMsgHeader
request_destroy = record { total_size = 4; sz_ver = 0x10004; id = 10; opcode = 3 }

three_columns-ValidCreate : ValidCreate request_create three_columns
three_columns-ValidCreate = record {
  long = omega arith;
  some_col = omega arith;
  in_array = omega arith;
}

ready-ctx : (k : ℕ) → (ready.ctx k).valid ≡ false
unfolding xdna_mbox_send deliver notify put_message put_tombstone store xdna_fw_boot publish_info
    open_mgmt xdna_sram_write32 clear xdna_mbox_channel_reset xdna_log xdna_npu_new xdna_npu_reset
    xdna_mbox_reset reset_from
ready-ctx k = refl

ready-next : ready.next_ctx_id ≡ 1
unfolding xdna_fw_boot publish_info open_mgmt xdna_sram_write32 clear store xdna_mbox_channel_reset
    xdna_log xdna_npu_new xdna_npu_reset xdna_mbox_reset reset_from
ready-next = refl

pub ready-LowestFree : LowestFree ready 0
ready-LowestFree = record {
  from = omega arith;
  below = omega arith;
  passes = rw (ready-ctx 0) refl;
  before = λ j h l. absurd (omega arith);
}

create_fills_slot_example :
    let t = handle_create_context 0 request_create three_columns ready in
    (t.ctx ≡ update ready.ctx 0 (new_context 0 (create_ctx_req three_columns) ready.next_ctx_id))
    × (t.next_ctx_id ≡ add32 ready.next_ctx_id 1)
    × (t.stats.active_contexts ≡ add32 ready.stats.active_contexts 1)
create_fills_slot_example =
    create_fills_slot 0 request_create three_columns ready 0 three_columns-ValidCreate
      ready-LowestFree

destroy-create_example :
    let t = handle_create_context 0 request_create three_columns ready in
    let u = handle_destroy_context 0 request_destroy (u32_bytes 1) t in
    ((k : ℕ) → (u.ctx k).valid ≡ (ready.ctx k).valid)
    × (u.stats.active_contexts ≡ ready.stats.active_contexts)
    × (ctx_by_id ready.next_ctx_id u ≡ none)
destroy-create_example =
    destroy-create 0 request_create three_columns 0 request_destroy (u32_bytes 1) ready 0
      three_columns-ValidCreate ready-LowestFree (λ k h. rw (ready-ctx k) refl)
      (omega (arith, ready-Safe.0.counted, none_counted)) (omega arith) (sym ready-next)
  where
    none_counted : ready.stats.active_contexts ≡ 0
    none_counted =
        ready-Safe.0.counted
        ∙ rw (ready-ctx 0, ready-ctx 1, ready-ctx 2, ready-ctx 3, ready-ctx 4, ready-ctx 5) refl

ready-room : is_full (ready.chan 0) (header_size + (resp_size_for request_create.opcode).0) ≡ false
unfolding xdna_mbox_send deliver notify put_message put_tombstone store xdna_fw_boot publish_info
    open_mgmt xdna_sram_write32 clear xdna_mbox_channel_reset xdna_log xdna_npu_new xdna_npu_reset
    xdna_mbox_reset reset_from resp_size_for
ready-room = refl

handle_answers_example :
    Replied request_create ready (xdna_mert_handle 0 request_create three_columns ready)
handle_answers_example =
    handle_answers request_create three_columns ready ready-Safe
      (sym ready-Safe.0.mgmt ∙ ready-active) ready-room (inl (λ e. absurd (omega (arith, e))))

-- Entry 3 is set to 500, and read.
abbrev request_set : XdnaMsgHeader
request_set = record { total_size = 12; sz_ver = 0x1000C; id = 11; opcode = 0x10A }

abbrev request_get : XdnaMsgHeader
request_get = record { total_size = 4; sz_ver = 0x10004; id = 12; opcode = 0x10B }

get-set_config_example :
    let t = handle_set_runtime_config 0 request_set (u32_bytes 3 ++ u64_bytes 500) ready in
    handle_get_runtime_config 0 request_get (u32_bytes 3) t
    ≡ mert_reply 0 request_get (u32_bytes aie2_status_success ++ u64_bytes 500) t
get-set_config_example =
    get-set_config 0 request_set (u32_bytes 3 ++ u64_bytes 500) ready (omega arith) (omega arith) 0
      request_get (u32_bytes 3) (omega arith) (omega arith)

-- A dump of 300 bytes, whose second write fails.
abbrev dump_request : ColumnInfoReq
dump_request = record {
  dump_buff_addr = 0x5000;
  dump_buff_size = 300;
  num_cols = 1;
  aie_bitmap = 1;
}

abbrev first_only : List HostEvent → ℕ → List ℕ → Bool
first_only h a bs = a == 0x5000

dump_ends_example :
    let d = run_dump first_only dump_request ready in
    (n : ℕ) × (d.npu.host ≡ blocks 0x5000 300 n ready.host)
    × (((dump_status d 300 ≡ aie2_status_success)
          × (d.done ≡ 300)
          × (300 ≤ 256 * n)
          × (256 * n < 300 + 256)
          × (accepts_all first_only 0x5000 300 ready.host n ≡ true))
        ⊎ ((dump_status d 300 ≡ aie2_status_aie_dma_error)
            × (d.done + 256 ≡ 256 * n)
            × (d.done < 300)
            × (accepts_all first_only 0x5000 300 ready.host (n - 1) ≡ true)
            × (accepts_block first_only 0x5000 300 ready.host (n - 1) ≡ false)))
dump_ends_example = dump_ends first_only dump_request ready

-- A device whose driver has written a command into the scratch registers.
abbrev commanded : ℕ → ℕ → ℕ → XdnaNpu
commanded cmd arg level = record fresh {
  scratch = λ i. if i == 2 then cmd else if i == 5 then cmd else if i == 7 then level else arg;
}

psp_kick_steps_example :
    let s = commanded 1 0x1000 0 in
    let t = xdna_psp_kick s in
    (t.scratch 2 ≡ psp_status_ready)
    × PspStep 1 (t.scratch 3) fresh.psp_state fresh.fw_alive t.psp_state t.fw_alive
psp_kick_steps_example = psp_kick_steps (commanded 1 0x1000 0)

smu_kick_responds_example :
    (xdna_smu_kick (commanded 7 0 9)).scratch 6
    ≡ (if is_accepted 7 9 then smu_result_ok else smu_result_fail)
smu_kick_responds_example = smu_kick_responds (commanded 7 0 9)

smu_kick_sets_example :
    let s = commanded 7 0 5 in
    let t = xdna_smu_kick s in
    (t.power_on ≡ s.power_on) × (t.npuclk ≡ s.npuclk) × (t.hclk ≡ s.hclk) × (t.dpm_level ≡ 5)
smu_kick_sets_example = smu_kick_sets (commanded 7 0 5)
