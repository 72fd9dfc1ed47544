-- ===== src/Tests/Rib.antt =====
-- The laws of src/rib at concrete inputs: an agent that joins, and two UEs of it.
use flexran_rtc.Base.{
  ℕ, ◌≡◌, ◌≢◌, refl, true, false, none, some, List, [], ◌∷◌, arith, ◌==◌, ◌&&◌, ◌||◌, if◌then◌else◌,
}
use flexran_rtc.Messages.{DlInfo}
use flexran_rtc.Network.Tagged.{TaggedMessage}
use flexran_rtc.Rib.SfnSf.{
  get_sfn_sf, get_frame, get_subframe, get_frame_subframe, get_sfn_sf_roundtrip,
}
use flexran_rtc.Rib.Ue.{
  UeMacRibInfo, new_ue, update_dl_sf_info, get_next_available_harq, has_available_harq,
  harq_scheduled,
}
use flexran_rtc.Rib.Ue.Harq.{
  Found, get_next_available_harq_lem, update_dl_sf_info_lem, harq_scheduled_lem,
}
use flexran_rtc.Rib.Store.{empty_rib, add_pending_agent, agent_is_pending, get_agent, present}
use flexran_rtc.Rib.Updater.{World, handle, update_rib}
use flexran_rtc.Rib.Updater.Agents.{handle_agents}
use flexran_rtc.Rib.Updater.Budget.{with_in, handle_all, update_rib_lem}
use flexran_rtc.Tests.Queue.{list_queue, byte_codec, parse_body}

packed :
    (get_frame (get_sfn_sf 1023 9) ≡ 1023)
    × (get_subframe (get_sfn_sf 1023 9) ≡ 9)
    × (get_frame_subframe (get_sfn_sf 1023 9) ≡ (1023, 9))
packed = get_sfn_sf_roundtrip 1023 9 (omega arith) (omega arith)

abbrev busy : UeMacRibInfo
busy = harq_scheduled (new_ue 61) 0 0

next_process :
    Found (λ i. busy.active_harq 0 i 0) 0 8 (get_next_available_harq busy 0)
    × (has_available_harq busy 0
        ≡ (elim (get_next_available_harq busy 0) [ none ↦ false | some k ↦ true ]))
next_process = get_next_available_harq_lem busy 0

not_again :
    (get_next_available_harq busy 0 ≢ some 0)
    × ((c' p' : ℕ)
        → busy.active_harq c' p' 0
          ≡ (if 0 == c' && 0 == p' then false else (new_ue 61).active_harq c' p' 0))
not_again = harq_scheduled_lem (new_ue 61) 0 0

abbrev acknowledged : DlInfo
acknowledged = record { rnti = 61; harq_process_id = 0; harq_status = 3 ∷ []; serv_cell_index = 0 }

freed :
    ((update_dl_sf_info busy acknowledged).active_harq 0 0 0 ≡ true)
    × ((update_dl_sf_info busy acknowledged).harq_stats 0 0 0 ≡ 3)
freed =
    update_dl_sf_info_lem busy acknowledged 3 [] 0 0 refl (omega arith) (omega arith) (omega arith)
      (omega arith)

abbrev world : List TaggedMessage → World (List TaggedMessage)
world ms = record {
  net_xface = record { in_queue = ms; out_queue = []; posted = 0 };
  rib = add_pending_agent 7 empty_rib;
}

abbrev config_reply : TaggedMessage
config_reply = record { tag = 7; size = 1; msg_contents = 1 ∷ []; dynamic_alloc = false }

joined :
    let w' = handle list_queue byte_codec 5 config_reply (world []) in
    let pending = agent_is_pending 7 (world []).rib in
    (agent_is_pending 7 w'.rib ≡ false)
    × (present (get_agent 7 w'.rib) ≡ (present (get_agent 7 (world []).rib) || pending))
unfolding byte_codec parse_body agent_is_pending
joined = handle_agents list_queue byte_codec 5 7 config_reply (world [])

-- Of three messages with room for one, the second is lost.
lost :
    (q : List TaggedMessage) × (update_rib list_queue byte_codec
        (λ n. 5)
        1
        (world (config_reply ∷ config_reply ∷ config_reply ∷ []))
      ≡ with_in list_queue byte_codec q (
          handle_all list_queue byte_codec
            (λ n. 5)
            1
            (config_reply ∷ config_reply ∷ config_reply ∷ [])
            (world (config_reply ∷ config_reply ∷ config_reply ∷ []))))
    × (list_queue.contents q ≡ config_reply ∷ [])
unfolding list_queue
lost =
    update_rib_lem list_queue byte_codec (λ n. 5) 1
      (world (config_reply ∷ config_reply ∷ config_reply ∷ []))
      (config_reply ∷ config_reply ∷ config_reply ∷ []) refl
