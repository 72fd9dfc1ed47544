-- ===== src/Rib/Updater/Budget.antt =====
-- How many messages one run of update_rib in src/rib/rib_updater.cc takes and handles.
use flexran_rtc.Base.{
  ℕ, zero, suc, ◌≡◌, refl, ◌∙◌, ap, Option, none, some, List, [], ◌∷◌, arith, ◌==◌, drop, inl, inr,
  Bool-cases,
}
use flexran_rtc.Messages.{
  Direction, successful_outcome, Body, hello, echo_request, echo_reply, stats_reply, sf_trigger,
  enb_config_reply, ue_config_reply, lc_config_reply, ue_state_change, FlexranMessage,
}
use flexran_rtc.Network.Tagged.{TaggedMessage}
use flexran_rtc.Network.Xface.{Lockfree, Codec, get_msg_from_network, send_msg}
use flexran_rtc.Rib.Store.{Rib, add_pending_agent, ue_state_update}
use flexran_rtc.Rib.Updater.{
  World, send, if_known, dispatch, handle, update_rib, handle_hello, handle_echo_request,
  handle_echo_reply, handle_sf_trigger, handle_enb_config_reply, handle_ue_config_reply,
  handle_lc_config_reply, handle_stats_reply, handle_ue_state_change, hello_msg, enb_request_msg,
  ue_request_msg, lc_request_msg,
}

module _ {Q : Type 0} (queue : Lockfree Q) (codec : Codec) where
  -- The world with another queue of incoming messages.
  abbrev pub with_in : Q → World Q → World Q
  with_in q w = record w { net_xface = record (w.net_xface) { in_queue = q } }

  send-with_in :
      (q : Q) (msg : FlexranMessage) (tag : ℕ) (w : World Q)
      → send queue codec msg tag (with_in q w) ≡ with_in q (send queue codec msg tag w)
  unfolding send send_msg
  send-with_in q msg tag w = ground arith

  if_known-with_in :
      (q : Q) (tag : ℕ) (f : Rib → Rib) (w : World Q)
      → if_known queue codec tag f (with_in q w) ≡ with_in q (if_known queue codec tag f w)
  unfolding if_known
  if_known-with_in q tag f w = ground arith

  hello-with_in :
      (q : Q) (tag : ℕ) (dir : Direction) (w : World Q)
      → handle_hello queue codec tag dir (with_in q w)
        ≡ with_in q (handle_hello queue codec tag dir w)
  unfolding handle_hello
  hello-with_in q tag successful_outcome w =
      rw
        (
          send-with_in q enb_request_msg tag w,
          send-with_in q ue_request_msg tag (send queue codec enb_request_msg tag w),
        )
        (send-with_in q lc_request_msg tag
          (send queue codec ue_request_msg tag (send queue codec enb_request_msg tag w)))
  hello-with_in q tag _ w = refl

  dispatch-with_in :
      (q : Q) (clock tag : ℕ) (dir : Direction) (msg : Option Body) (w : World Q)
      → dispatch queue codec clock tag dir msg (with_in q w)
        ≡ with_in q (dispatch queue codec clock tag dir msg w)
  unfolding dispatch handle_echo_request handle_echo_reply handle_sf_trigger handle_enb_config_reply
      handle_ue_config_reply handle_lc_config_reply handle_stats_reply handle_ue_state_change
  dispatch-with_in q clock tag dir none w = refl
  dispatch-with_in q clock tag dir (some (hello h)) w = hello-with_in q tag dir w
  dispatch-with_in q clock tag dir (some (echo_request h)) w = send-with_in q _ tag w
  dispatch-with_in q clock tag dir (some (echo_reply h)) w = if_known-with_in q tag _ w
  dispatch-with_in q clock tag dir (some (stats_reply h s)) w = if_known-with_in q tag _ w
  dispatch-with_in q clock tag dir (some (sf_trigger h t)) w = if_known-with_in q tag _ w
  dispatch-with_in q clock tag dir (some (ue_config_reply h us)) w = if_known-with_in q tag _ w
  dispatch-with_in q clock tag dir (some (lc_config_reply h ls)) w = if_known-with_in q tag _ w
  dispatch-with_in q clock tag dir (some (enb_config_reply h cs)) w = ground arith
  dispatch-with_in q clock tag dir (some (ue_state_change h s)) w =
      ground
        (arith, send-with_in q lc_request_msg tag (record w { rib = ue_state_update tag s w.rib }))
  dispatch-with_in q clock tag dir (some _) w = refl

  handle-with_in :
      (q : Q) (clock : ℕ) (tm : TaggedMessage) (w : World Q)
      → handle queue codec clock tm (with_in q w) ≡ with_in q (handle queue codec clock tm w)
  unfolding handle
  handle-with_in q clock tm w = elim (Bool-cases (tm.size == 0)) [
    | inl e ↦
        rw e (send-with_in q hello_msg tm.tag (record w { rib = add_pending_agent tm.tag w.rib }))
    | inr e ↦
        let p = codec.parse tm.msg_contents in
        rw e (dispatch-with_in q clock tm.tag p.msg_dir p.msg w)
  ]

  -- The first messages handled one after the other, and no more than there are.
  unfoldable pub handle_all : (ℕ → ℕ) → ℕ → List TaggedMessage → World Q → World Q
  handle_all clock zero ms w = w
  handle_all clock (suc n) [] w = w
  handle_all clock (suc n) (m ∷ ms) w = handle_all clock n ms (handle queue codec (clock n) m w)

  handle_all-with_in :
      (q : Q) (clock : ℕ → ℕ) (n : ℕ) (ms : List TaggedMessage) (w : World Q)
      → handle_all clock n ms (with_in q w) ≡ with_in q (handle_all clock n ms w)
  unfolding handle_all
  handle_all-with_in q clock zero ms w = refl
  handle_all-with_in q clock (suc n) [] w = refl
  handle_all-with_in q clock (suc n) (m ∷ ms) w =
      rw (handle-with_in q (clock n) m w)
        (handle_all-with_in q clock n ms (handle queue codec (clock n) m w))

  -- One run handles the first messages of the queue, at most as many as it may, in their
  -- order. It takes one message more than it may handle where there is one, and that message
  -- is lost: the rest of the world is as if it had never been there.
  pub update_rib_lem :
      (clock : ℕ → ℕ) (n : ℕ) (w : World Q) (ms : List TaggedMessage)
      → queue.contents w.net_xface.in_queue ≡ ms
      → (q : Q) × (update_rib queue codec clock n w ≡ with_in q (handle_all clock n ms w))
        × (queue.contents q ≡ drop (suc n) ms)
  unfolding update_rib get_msg_from_network handle_all
  update_rib_lem clock zero w [] e =
      ((queue.pop w.net_xface.in_queue).0, refl, (queue.pop_nil w.net_xface.in_queue e).1)
  update_rib_lem clock zero w (m ∷ ms) e =
      ((queue.pop w.net_xface.in_queue).0, refl, (queue.pop_cons w.net_xface.in_queue m ms e).1)
  update_rib_lem clock (suc n) w [] e =
      let (nothing, empty) = queue.pop_nil w.net_xface.in_queue e in
      ((queue.pop w.net_xface.in_queue).0, rw (nothing, update_rib), empty)
  update_rib_lem clock (suc n) w (m ∷ ms) e =
      let popped = (queue.pop w.net_xface.in_queue).0 in
      let (first, rest) = queue.pop_cons w.net_xface.in_queue m ms e in
      let v = handle queue codec (clock n) m w in
      let (q, run, left) = update_rib_lem clock n (with_in popped v) ms rest in
      (
        q,
        rw (first, update_rib)
            (ap (update_rib queue codec clock n) (handle-with_in popped (clock n) m w)
              ∙ run
              ∙ ap (with_in q) (handle_all-with_in popped clock n ms v)),
        left,
      )
