-- ===== src/Mert/Answer/Dispatch.antt =====
-- src/xdna_mert.c: every request of a live firmware is answered, but for a registration.
use xdna1_npu_emulator.Prelude.{
  ℕ, ◌+◌, ◌<◌, ◌≡◌, refl, sym, ap, ◌∙◌, subst, ◌≢◌, ◌⊎◌, inl, inr, Bool, true, false, not, ◌||◌,
  false≢true, List, arith, ◌==◌, ==→eq, if_keeps, if_elim, length, add64,
}
use xdna1_npu_emulator.Regs.Opcodes.{
  msg_op_create_context, msg_op_destroy_context, msg_op_get_telemetry, msg_op_query_col_status,
  msg_op_query_aie_tile_info, msg_op_query_aie_version, msg_op_suspend, msg_op_resume,
  msg_op_assign_mgmt_pasid, msg_op_invoke_self_test, msg_op_map_host_buffer,
  msg_op_get_firmware_version, msg_op_set_runtime_config, msg_op_get_runtime_config,
  msg_op_register_async_event_msg, msg_op_add_host_buffer, msg_op_get_protocol_version,
  aie2_status_success, aie2_status_invalid_command, aie2_status_invalid_operation,
}
use xdna1_npu_emulator.State.{XdnaMsgHeader, XdnaChannel, XdnaNpu, log_warn}
use xdna1_npu_emulator.Mert.Wire.{
  protocol_version_bytes, firmware_version_bytes, aie_version_bytes, tile_info_resp_bytes,
  telemetry_bytes,
}
use xdna1_npu_emulator.Mert.Reply.{mert_reply, resp_size_for}
use xdna1_npu_emulator.Mert.Sizes.{resp_size_bounds}
use xdna1_npu_emulator.Mailbox.Send.{header_size, message_header, package_size, write_tail, is_full}
use xdna1_npu_emulator.Mailbox.Deliver.{MessageAt, Delivered}
use xdna1_npu_emulator.Mailbox.Outgoing.{ring_delivers}
use xdna1_npu_emulator.Invariant.{RingAt, Inv, InRing, Safe}
use xdna1_npu_emulator.Mert.Answer.{Quiet, still, Answered, answer, answer_status}
use xdna1_npu_emulator.Mert.Answer.Requests.{
  refuse, refuse_logged, create_answers, destroy_answers, map_answers, col_status_answers,
  set_config_answers, get_config_answers, pasid_answers, short_registration,
}
use xdna1_npu_emulator.Mert.{
  tile_info, protocol_version, firmware_version, aie_version, telemetry, needs_array, dispatch,
  xdna_mert_handle,
}

module _ (chan : ℕ) (hdr : XdnaMsgHeader) (payload : List ℕ) (s : XdnaNpu) where
  abbrev Ok : XdnaNpu → Type 0
  Ok t = Answered chan hdr s t

  dispatch_answers :
      Inv s
      → (hdr.opcode ≢ msg_op_register_async_event_msg) ⊎ (hdr.total_size < 12)
      → Ok (dispatch chan hdr payload s)
  unfolding dispatch resp_size_for
  dispatch_answers w asks =
      (if_elim Ok (is msg_op_get_protocol_version)
        (λ e. answer chan hdr s s _ (protocol_version_bytes protocol_version) (op e) refl (still s))
        λ _.
          if_elim Ok (is msg_op_get_firmware_version)
            (λ e.
              answer chan hdr s s _ (firmware_version_bytes firmware_version) (op e) refl (still s))
            λ _.
              if_elim Ok (is msg_op_query_aie_version)
                (λ e. answer chan hdr s s _ (aie_version_bytes aie_version) (op e) refl (still s))
                λ _.
                  if_elim Ok (is msg_op_query_aie_tile_info)
                    (λ e.
                      answer chan hdr s s _
                        (tile_info_resp_bytes
                          (record { status = aie2_status_success; info = tile_info }))
                        (op e) refl (still s))
                    λ _.
                      if_keeps Ok (is msg_op_set_runtime_config)
                        (set_config_answers chan hdr payload s)
                        (if_elim Ok (is msg_op_get_runtime_config)
                          (λ e. get_config_answers chan hdr payload s (op e))
                          λ _.
                            if_keeps Ok (is msg_op_assign_mgmt_pasid)
                              (pasid_answers chan hdr payload s)
                              (if_keeps Ok (is msg_op_suspend)
                                (answer_status chan hdr s _ aie2_status_success
                                  (record { unsent = refl; mgmt = refl }))
                                (if_keeps Ok (is msg_op_resume)
                                  (answer_status chan hdr s _ aie2_status_success
                                    (record { unsent = refl; mgmt = refl }))
                                  (if_keeps Ok (is msg_op_invoke_self_test)
                                    (refuse chan hdr payload s aie2_status_success)
                                    (if_elim Ok (is msg_op_create_context)
                                      (λ e. create_answers chan hdr payload s (op e))
                                      λ _.
                                        if_keeps Ok (is msg_op_destroy_context)
                                          (destroy_answers chan hdr payload s w)
                                          (if_keeps Ok
                                            (is msg_op_map_host_buffer || is msg_op_add_host_buffer)
                                            (map_answers chan hdr payload s)
                                            (if_elim Ok (is msg_op_register_async_event_msg)
                                              (λ e.
                                                short_registration chan hdr payload s
                                                  (short (op e)))
                                              λ _.
                                                if_elim Ok (is msg_op_query_col_status)
                                                  (λ e.
                                                    col_status_answers chan hdr payload s (op e))
                                                  λ _.
                                                    if_elim Ok (is msg_op_get_telemetry)
                                                      (λ e.
                                                        answer chan hdr s s _
                                                          (telemetry_bytes telemetry) (op e) refl
                                                          (still s))
                                                      λ _.
                                                        if_keeps Ok (needs_array hdr.opcode)
                                                          (refuse_logged chan hdr payload s log_warn
                                                            aie2_status_invalid_operation)
                                                          (refuse_logged chan hdr payload s log_warn
                                                            aie2_status_invalid_command)))))))))
    where
      is : ℕ → Bool
      is o = hdr.opcode == o

      op : {o : ℕ} → is o ≡ true → hdr.opcode ≡ o
      op {o} e = ==→eq hdr.opcode o e

      short : hdr.opcode ≡ msg_op_register_async_event_msg → hdr.total_size < 12
      short e = elim asks [ inl n ↦ absurd (n e) | inr l ↦ l ]

-- One reply to the request has been sent: of the size of its opcode, under its id and its opcode, and
-- placed at the tail of the outgoing ring of the management channel.
pub record Replied (hdr : XdnaMsgHeader) (s t : XdnaNpu) : Type 0 where
  pub payload : List ℕ
  pub size : length payload ≡ (resp_size_for hdr.opcode).0
  pub delivered :
      Delivered 0
        (write_tail (s.chan 0) (package_size payload))
        (message_header (length payload) hdr.id hdr.opcode)
        payload
        s
        t

-- What is delivered after quiet steps is delivered.
Quiet-Delivered :
    (hdr : XdnaMsgHeader) (payload : List ℕ) (s u t : XdnaNpu)
    → Quiet s u
    → Delivered 0 (write_tail (u.chan 0) (package_size payload)) hdr payload u t
    → Delivered 0 (write_tail (s.chan 0) (package_size payload)) hdr payload s t
Quiet-Delivered hdr payload s u t q d = record {
  message =
      subst
        (λ (c : XdnaChannel).
          MessageAt (c.i2x_buf + write_tail c (package_size payload)) hdr payload t.sram)
        q.mgmt d.message;
  tail =
      d.tail
      ∙ ap (λ (c : XdnaChannel). write_tail c (package_size payload) + header_size + length payload)
          q.mgmt;
  head = d.head ∙ ap (λ (c : XdnaChannel). c.i2x_head) q.mgmt;
  status = d.status;
  counted = d.counted ∙ ap (λ (n : ℕ). add64 n 1) q.unsent;
}

module _ (hdr : XdnaMsgHeader) (payload : List ℕ) (s : XdnaNpu) (v : Safe s)
    (alive : s.fw_alive ≡ true)
    (room : is_full (s.chan 0) (header_size + (resp_size_for hdr.opcode).0) ≡ false) where
  mgmt_is_open : (s.chan 0).active ≡ true
  mgmt_is_open = v.0.mgmt ∙ alive

  Answered-Replied : (t : XdnaNpu) → Answered 0 hdr s t → Replied hdr s t
  unfolding mert_reply
  Answered-Replied t a =
      let c = a.before.chan 0 in
      let kept : s.chan 0 ≡ c = sym a.quiet.mgmt in
      let bound = resp_size_bounds hdr.opcode in
      let size : header_size + (resp_size_for hdr.opcode).0 ≡ package_size a.payload =
        omega (arith, a.size, bound) in
      let sent =
        ring_delivers 0 hdr.id hdr.opcode a.payload a.before (omega arith)
          (ap (λ (x : XdnaChannel). x.active) (sym kept) ∙ mgmt_is_open)
          (subst (RingAt 0) kept (v.0.rings 0 (omega arith) mgmt_is_open))
          (subst (InRing 0) kept (v.1.in_ring 0 (omega arith) mgmt_is_open))
          (omega (arith, a.size, bound)) (sym (λ i. is_full (kept i) (size i)) ∙ room) in
      record {
        payload = a.payload;
        size = a.size;
        delivered =
            subst
              (λ (x : XdnaNpu).
                Delivered 0 (write_tail (s.chan 0) (package_size a.payload))
                  (message_header (length a.payload) hdr.id hdr.opcode) a.payload s x)
              (sym a.reply)
              (Quiet-Delivered (message_header (length a.payload) hdr.id hdr.opcode) a.payload s
                a.before _ a.quiet sent.1);
      }

  -- In a device that is in order, a live firmware answers every request on the management channel,
  -- refused and unknown ones too, with exactly one reply, if the outgoing ring has room for a reply
  -- of the size that the table gives for the opcode: the reply has that size, stands at the tail of
  -- the ring under the id and the opcode of the request, and is counted. The exception is an accepted
  -- registration for asynchronous events.
  pub handle_answers :
      (hdr.opcode ≢ msg_op_register_async_event_msg) ⊎ (hdr.total_size < 12)
      → Replied hdr s (xdna_mert_handle 0 hdr payload s)
  unfolding xdna_mert_handle
  handle_answers asks = Answered-Replied _ (
      if_elim (Answered 0 hdr s) (not s.fw_alive)
        (λ e. absurd (false≢true (sym (ap not alive) ∙ e)))
        (λ _. dispatch_answers 0 hdr payload s v.0 asks))
