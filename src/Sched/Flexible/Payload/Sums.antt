-- ===== src/Sched/Flexible/Payload/Sums.antt =====
-- What src/app/flexible_scheduler.cc asks the logical channels of a UE for.
use flexran_rtc.Base.{
  ℕ, ◌+◌, ◌%◌, ◌^◌, ◌≤◌, ◌≡◌, refl, inl, inr, List, [], ◌∷◌, ◌++◌, arith, ltb, min, Bool-cases,
  length, length-append,
}
use flexran_rtc.Messages.{RlcBsr, RlcPduTb}
use flexran_rtc.Rib.Ue.{u8}
use flexran_rtc.Sched.Flexible.Payload.{
  Payload, queued, room, pdu, request_channel, request_channels,
}

-- The bytes that wait in all queues.
abbrev pub waiting : List RlcBsr → ℕ
waiting [] = 0
waiting (r ∷ rs) = queued r + waiting rs

-- The size of the first transport block of a PDU.
abbrev pub asked : List RlcPduTb → ℕ
asked [] = 0
asked (tb ∷ _) = tb.size

abbrev pub asked_all : List (List RlcPduTb) → ℕ
asked_all [] = 0
asked_all (p ∷ ps) = asked p + asked_all ps

asked_all-append :
    (ps : List (List RlcPduTb)) (p : List RlcPduTb)
    → asked_all (ps ++ p ∷ []) ≡ asked_all ps + asked p
asked_all-append [] p = ground arith
asked_all-append (q ∷ ps) p = ground (arith, asked_all-append ps p)

-- The sum of what is asked, in the 16 bits that the source keeps it in.
abbrev pub Totalled : Payload → Type 0
Totalled p = p.sdu_length_total ≡ asked_all p.rlc_pdu % 2 ^ 16

request_channel_lem :
    (dci_tbs ta_len : ℕ) (r : RlcBsr) (p : Payload)
    → Totalled p
    → let out = request_channel dci_tbs ta_len r p in
      Totalled out.1
      × (queued out.0 + asked_all (out.1).rlc_pdu ≡ queued r + asked_all p.rlc_pdu)
      × (length (out.1).rlc_pdu ≤ length p.rlc_pdu + 1)
unfolding request_channel
request_channel_lem dci_tbs ta_len r p h =
    let left = room dci_tbs ta_len (u8 (p.header_len + 3)) p.sdu_length_total in
    let bytes = min left (queued r) in
    let more = asked_all-append p.rlc_pdu (pdu r.lc_id bytes) in
    let longer = length-append p.rlc_pdu (pdu r.lc_id bytes ∷ []) in
    elim (Bool-cases (ltb 0 left)) [
      | inr full ↦ rw full (h, refl, omega arith)
      | inl free ↦ elim (Bool-cases (ltb 0 (queued r))) [
        | inr empty ↦ rw (free, empty) (h, refl, omega arith)
        | inl waits ↦
            rw (free, waits) (ground (arith, more, h), ground (arith, more), ground (arith, longer))
      ]
    ]

-- Where the sum of what was asked so far is kept, the bytes that the channels of a UE are asked
-- for are exactly those that their queues lose, their sum is kept in 16 bits, there is at most
-- one PDU for each channel, and the number of channels stays.
pub request_channels_lem :
    (dci_tbs ta_len : ℕ) (rs : List RlcBsr) (p : Payload)
    → Totalled p
    → let out = request_channels dci_tbs ta_len rs p in
      Totalled out.1
      × (waiting out.0 + asked_all (out.1).rlc_pdu ≡ waiting rs + asked_all p.rlc_pdu)
      × ((length (out.1).rlc_pdu ≤ length p.rlc_pdu + length rs) × (length out.0 ≡ length rs))
unfolding request_channels
request_channels_lem dci_tbs ta_len [] p h = (h, refl, (omega arith, refl))
request_channels_lem dci_tbs ta_len (r ∷ rs) p h =
    let (t1, e1, n1) = request_channel_lem dci_tbs ta_len r p h in
    let (t2, e2, n2) =
      request_channels_lem dci_tbs ta_len rs (request_channel dci_tbs ta_len r p).1 t1 in
    (t2, ground (arith, e1, e2), (ground (arith, n1, n2.0), ground (arith, n2.1)))
