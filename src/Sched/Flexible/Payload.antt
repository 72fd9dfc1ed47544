-- ===== src/Sched/Flexible/Payload.antt =====
-- The loop of run_central_scheduler in src/app/flexible_scheduler.cc over the logical channels
-- of a UE: what each is asked to send. The sums have the widths of the source's variables.

pub mod Sums
use flexran_rtc.Base.{
  ℕ, ◌+◌, ◌-◌, ◌*◌, ◌%◌, ◌^◌, Bool, Option, none, some, List, [], ◌∷◌, ◌++◌, ◌==◌, ltb,
  if◌then◌else◌, min,
}
use flexran_rtc.Messages.{RlcBsr, RlcPduTb}
use flexran_rtc.Rib.SfnSf.{u16}
use flexran_rtc.Rib.Ue.{u8}

-- `header_len`, `header_len_last`, `sdu_length_total` and what was added to the message.
pub record Payload : Type 0 where
  pub header_len : ℕ
  pub header_len_last : ℕ
  pub sdu_length_total : ℕ
  pub rlc_pdu : List (List RlcPduTb)

abbrev pub empty_payload : Payload
empty_payload = record { header_len = 0; header_len_last = 0; sdu_length_total = 0; rlc_pdu = [] }

abbrev pub queued : RlcBsr → ℕ
queued r = elim (r.tx_queue_size) [ some n ↦ n | none ↦ 0 ]

-- `dci_tbs - ta_len - header_len - sdu_length_total`, unsigned: it wraps around below zero.
abbrev pub room : ℕ → ℕ → ℕ → ℕ → ℕ
room dci_tbs ta_len header_len total = (dci_tbs + 3 * 2 ^ 32 - ta_len - header_len - total) % 2 ^ 32

abbrev pub pdu : ℕ → ℕ → List RlcPduTb
pdu lc_id size =
    let tb : RlcPduTb = record { logical_channel_id = lc_id; size = size } in tb ∷ tb ∷ []

-- One channel, whose queue is made shorter by what it is asked for.
unfoldable pub request_channel : ℕ → ℕ → RlcBsr → Payload → RlcBsr × Payload
request_channel dci_tbs ta_len r p =
    let header = u8 (p.header_len + 3) in
    let left = room dci_tbs ta_len header p.sdu_length_total in
    let asked_bytes = min left (queued r) in
    let asked : RlcBsr × Payload = (
      record r { tx_queue_size = some (queued r - asked_bytes) },
      record {
        header_len = if ltb asked_bytes 128 then u8 (header + 2 ^ 8 - 1) else header;
        header_len_last = if ltb asked_bytes 128 then 2 else 3;
        sdu_length_total = u16 (p.sdu_length_total + asked_bytes);
        rlc_pdu = p.rlc_pdu ++ pdu r.lc_id asked_bytes ∷ [];
      },
    ) in
    let nothing : RlcBsr × Payload = (r, record p { header_len = u8 (header + 2 ^ 8 - 3) }) in
    let full : RlcBsr × Payload = (r, record p { header_len = header }) in
    if ltb 0 left then (if ltb 0 (queued r) then asked else nothing) else full

unfoldable pub request_channels : ℕ → ℕ → List RlcBsr → Payload → List RlcBsr × Payload
request_channels dci_tbs ta_len [] p = ([], p)
request_channels dci_tbs ta_len (r ∷ rs) p =
    let (r', p') = request_channel dci_tbs ta_len r p in
    let (rs', p'') = request_channels dci_tbs ta_len rs p' in (r' ∷ rs', p'')

-- `header_len` with the last subheader made shorter, for a message with a PDU.
unfoldable pub final_header : Payload → ℕ
final_header p =
    if p.header_len == 0 then 0 else u8 (p.header_len + 2 ^ 8 - u8 (p.header_len_last + 2 ^ 8 - 1))

-- `sdu_length_total + header_len + ta_len`
unfoldable pub total_bytes : ℕ → Payload → ℕ
unfolding final_header
total_bytes ta_len p = p.sdu_length_total + final_header p + ta_len
