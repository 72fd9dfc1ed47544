-- ===== src/Sched/Remote/Sending.antt =====
-- run_periodic_task of src/app/remote_scheduler.cc, for new data of one UE: what its channels are
-- asked for, and how it is sent.
use flexran_rtc.Base.{
  ℕ, ◌+◌, ◌-◌, ◌*◌, ◌^◌, Option, none, some, List, [], ◌∷◌, ◌++◌, ◌==◌, ◌||◌, ltb, if◌then◌else◌,
  min,
}
use flexran_rtc.Base.Faults.{◌>>=◌}
use flexran_rtc.Base.Int.{ℤ, pos, ◌+ℤ◌}
use flexran_rtc.Messages.{CellConfig, CellStatsReport, UeStatsReport, RlcBsr, RlcPduTb}
use flexran_rtc.Rib.Ue.{u8, write2}
use flexran_rtc.Rib.SfnSf.{u16}
use flexran_rtc.Sched.Primitives.{get_min_rb_unit}
use flexran_rtc.Sched.Info.{UeSchedulingInfo, set_nb_scheduled_rbs}
use flexran_rtc.Sched.Helper.{first_rbs}
use flexran_rtc.Sched.Flexible.Fitting.{tbs, schedule_groups, raise_rbs, fit_mcs}
use flexran_rtc.Sched.Flexible.Payload.{queued, room, pdu}
use flexran_rtc.Sched.Flexible.Power.{rx_power, tpc_is_due, tpc_command}
use flexran_rtc.Sched.Remote.{RemoteLocals, RemoteAttempt, advance_timing}

-- `header_len`, `sdu_length_total` and what was added to the message.
pub record Request : Type 0 where
  pub header_len : ℕ
  pub sdu_length_total : ℕ
  pub rlc_pdu : List (List RlcPduTb)

-- One channel. The total is what this channel is asked for alone.
unfoldable pub ask_channel : ℕ → ℕ → RlcBsr → Request → Request
ask_channel dci_tbs ta_len r p =
    let header = u8 (p.header_len + 3) in
    let left = room dci_tbs ta_len header 0 in
    let asked_bytes = min left (queued r) in
    let asked : Request = record {
      header_len = if ltb asked_bytes 128 then u8 (header + 2 ^ 8 - 1) else header;
      sdu_length_total = u16 asked_bytes;
      rlc_pdu = p.rlc_pdu ++ pdu r.lc_id asked_bytes ∷ [];
    } in
    let nothing : Request = record p { header_len = u8 (header + 2 ^ 8 - 3) } in
    let full : Request = record p { header_len = header } in
    if ltb 0 left then (if ltb 0 (queued r) then asked else nothing) else full

unfoldable pub ask_channels : ℕ → ℕ → List RlcBsr → Request → Request
unfolding ask_channel
ask_channels dci_tbs ta_len [] p = p
ask_channels dci_tbs ta_len (r ∷ rs) p =
    ask_channels dci_tbs ta_len rs (ask_channel dci_tbs ta_len r p)

-- `header_len` without the length field of the last PDU.
abbrev pub shorter_header : ℕ → ℕ
shorter_header header = if header == 2 || header == 3 then 1 else u8 (header + 2 ^ 8 - 1)

-- The power control: the UE, the command and the accumulated commands. A report is not asked
-- whether its power is new.
unfoldable pub command_power :
    CellConfig
    → CellStatsReport
    → UeStatsReport
    → ℕ
    → ℕ
    → ℤ
    → UeSchedulingInfo
    → UeSchedulingInfo × (ℕ × ℤ)
unfolding rx_power
command_power cell cell_report report frame subframe accumulated u =
    let last = u.pucch_tpc_tx_frame * 10 + u.pucch_tpc_tx_subframe in
    let target = cell_report.noise_inter_report.p0_nominal_pucch +ℤ pos 10 in
    let timed = record u { pucch_tpc_tx_frame = frame; pucch_tpc_tx_subframe = subframe } in
    let steady : UeSchedulingInfo × (ℕ × ℤ) = (u, (1, accumulated)) in
    let due : UeSchedulingInfo × (ℕ × ℤ) =
      elim (rx_power cell.cell_id report.ul_cqi_report.pucch_dbm) [
        | none ↦ steady
        | some p ↦ (timed, tpc_command target p.0 accumulated)
      ] in
    if tpc_is_due last (frame * 10 + subframe) then due else steady

-- The setters: the scheme, the blocks and the new data indicator.
unfoldable pub store_scheme : ℕ → ℕ → ℕ → ℕ → UeSchedulingInfo → UeSchedulingInfo
store_scheme c harq_pid mcs nb_rb u = record (set_nb_scheduled_rbs c harq_pid nb_rb u) {
  mcs = write2 u.mcs c harq_pid (u16 mcs);
  ndi = write2 u.ndi c harq_pid (u8 (1 + 2 ^ 8 - u.ndi c harq_pid));
}

-- The message has a PDU: how it is sent once the number of blocks is known.
unfoldable pub send_request :
    CellConfig
    → CellStatsReport
    → ℕ
    → ℕ
    → ℕ
    → ℕ
    → UeStatsReport
    → List (List RlcPduTb)
    → ℕ
    → RemoteLocals
    → UeSchedulingInfo
    → RemoteAttempt
send_request cell cell_report frame subframe harq_pid need report pdus nb_rb l u =
    let c = cell.cell_id in
    let mcs = fit_mcs nb_rb need l.mcs in
    let filled = schedule_groups cell harq_pid (nb_rb == u.pre_nb_rbs_available c) nb_rb u in
    let (powered, command) =
      command_power cell cell_report report frame subframe l.tpc_accumulated filled in
    let stored = store_scheme c harq_pid mcs nb_rb powered in
    record {
      ue = stored;
      locals = record l { mcs = mcs; tpc_accumulated = command.1 };
      rlc_pdu = pdus;
      grant = some (record {
        nb_rb = nb_rb;
        mcs = mcs;
        dci_tbs = tbs mcs nb_rb;
        ndi = stored.ndi c harq_pid;
        tpc = command.0;
      });
    }

-- The rest of the branch where the channels were asked. Fuel for a round of the loop for each
-- block that the UE was given, and one more.
unfoldable pub offer_request :
    CellConfig
    → CellStatsReport
    → ℕ
    → ℕ
    → ℕ
    → ℕ
    → UeStatsReport
    → Request
    → RemoteLocals
    → UeSchedulingInfo
    → Option RemoteAttempt
unfolding send_request
offer_request cell cell_report frame subframe harq_pid ta_len report p l u =
    let available = u.pre_nb_rbs_available cell.cell_id in
    let header = shorter_header p.header_len in
    let need = p.sdu_length_total + header + ta_len in
    let blocks : Option ℕ =
      raise_rbs (available + 1) l.mcs (get_min_rb_unit cell) available need
        (first_rbs cell l.mcs) in
    let l' : RemoteLocals = record l { header_len = header } in
    let kept : RemoteLocals = record l { header_len = p.header_len } in
    elim (p.rlc_pdu) [
      | [] ↦ some (record { ue = u; locals = kept; rlc_pdu = []; grant = none })
      | _ ∷ _ ↦ blocks >>= (λ nb_rb.
          some (
            send_request cell cell_report frame subframe harq_pid need report p.rlc_pdu nb_rb l' u))
    ]

-- A new SDU, where a channel has one.
unfoldable pub send_new :
    CellConfig
    → CellStatsReport
    → ℕ
    → ℕ
    → ℕ
    → UeStatsReport
    → RemoteLocals
    → UeSchedulingInfo
    → Option RemoteAttempt
unfolding advance_timing offer_request ask_channels
send_new cell cell_report frame subframe harq_pid report l u =
    let available = u.pre_nb_rbs_available cell.cell_id in
    let (timed, (ta_len, ce_flags)) = advance_timing report.pending_mac_ces l.ce_flags u in
    let begun : Request = record {
      header_len = l.header_len;
      sdu_length_total = 0;
      rlc_pdu = [];
    } in
    let asked = ask_channels (tbs l.mcs available) ta_len report.rlc_report begun in
    offer_request cell cell_report frame subframe harq_pid ta_len report asked
      (record l { ce_flags = ce_flags }) timed
