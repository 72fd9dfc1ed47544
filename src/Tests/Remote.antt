-- ===== src/Tests/Remote.antt =====
-- The run of src/app/remote_scheduler.cc at a concrete input: one agent with a cell of 25 blocks and
-- a UE.
use flexran_rtc.Base.{◌≡◌, refl, none, some, List, [], ◌∷◌, ◌==◌}
use flexran_rtc.Base.Int.{pos}
use flexran_rtc.Messages.{RlcBsr}
use flexran_rtc.Rib.Ue.{UeMacRibInfo, new_ue}
use flexran_rtc.Rib.Enb.{EnbRibInfo}
use flexran_rtc.Rib.Store.{Rib}
use flexran_rtc.Sched.Remote.Sending.{Request, ask_channels}
use flexran_rtc.Sched.Remote.Task.{RemoteScheduler}
use flexran_rtc.Tests.Flexible.{enb, report}

abbrev scheduler : RemoteScheduler
scheduler = record {
  scheduling_info = [];
  locals = record { mcs = 0; ce_flags = 0; header_len = 0; tpc_accumulated = pos 0 };
  sent = [];
}

-- The UE has bytes in two queues, and its process 2 is free.
abbrev free : UeMacRibInfo
free = record (new_ue 61) { mac_stats_report = report; active_harq = λ c h i. h == 2 }

abbrev waiting : EnbRibInfo
waiting = record enb {
  ue_mac_info = (61, free) ∷ [];
  lc_config = record { rnti = 61; lc_config = 1 ∷ 3 ∷ [] } ∷ [];
}

abbrev rib : Rib
rib = record { enb_configs = (7, waiting) ∷ []; pending_agents = [] }

abbrev queues : List RlcBsr
queues =
    record { lc_id = 1; tx_queue_size = some 40; tx_queue_hol_delay = none }
    ∷ record { lc_id = 3; tx_queue_size = some 900; tx_queue_hol_delay = none }
    ∷ []

abbrev begun : Request
begun = record { header_len = 0; sdu_length_total = 0; rlc_pdu = [] }

-- Of two channels that wait only the bytes of the last are counted.
last_counted : (ask_channels 300 2 queues begun).sdu_length_total ≡ 293
unfolding ask_channels
last_counted = refl
