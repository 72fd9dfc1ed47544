-- ===== src/Rib/Updater.antt =====
-- src/rib/rib_updater.h and .cc: the task that brings the information base up to date from
-- the messages of the agents. Each message is handled with a reading of the clock.
pub mod Agents
pub mod Budget
pub mod Lifecycle
pub mod Fit
use flexran_rtc.Base.{
  ℕ, zero, suc, ◌≡◌, Bool, true, false, Option, none, some, List, [], ◌∷◌, ◌==◌, ltb, if◌then◌else◌,
}
use flexran_rtc.Messages.{
  Direction, initiating_message, successful_outcome, not_set, unsuccessful_outcome, MessageType,
  hello_type, echo_reply_type, enb_config_request_type, ue_config_request_type,
  lc_config_request_type, Header, CellConfig, UeConfig, LcUeConfig, SfTrigger, UeStateChange,
  StatsReply, Body, hello, echo_request, echo_reply, stats_reply, sf_trigger, ul_sr_info,
  enb_config_request, enb_config_reply, ue_config_request, ue_config_reply, lc_config_request,
  lc_config_reply, ue_state_change, FlexranMessage,
}
use flexran_rtc.Network.Tagged.{TaggedMessage}
use flexran_rtc.Network.Xface.{Lockfree, Codec, Xface, get_msg_from_network, send_msg}
use flexran_rtc.Rib.Store.{
  Rib, add_pending_agent, remove_pending_agent, agent_is_pending, new_enb_config_entry,
  has_enb_config_entry, enb_config_update, ue_config_update, ue_state_update, lc_config_update,
  liveness_update, set_subframe_updates, mac_stats_update,
}

-- The interface and the information base that the updater holds references to.
pub record World (Q : Type 0) : Type 0 where
  pub net_xface : Xface Q
  pub rib : Rib

abbrev pub request : MessageType → Option ℕ → ℕ → Header
request type version xid = record { type = type; version = version; xid = xid }

abbrev pub initiating : Body → FlexranMessage
initiating b = record { msg_dir = initiating_message; msg = some b }

abbrev pub hello_msg : FlexranMessage
hello_msg = initiating (hello (request hello_type (some 0) 0))

abbrev pub enb_request_msg : FlexranMessage
enb_request_msg = initiating (enb_config_request (request enb_config_request_type (some 0) 0))

abbrev pub ue_request_msg : FlexranMessage
ue_request_msg = initiating (ue_config_request (request ue_config_request_type none 1))

abbrev pub lc_request_msg : FlexranMessage
lc_request_msg = initiating (lc_config_request (request lc_config_request_type none 2))

module _ {Q : Type 0} (queue : Lockfree Q) (codec : Codec) where
  -- net_xface_.send_msg; its result is not looked at.
  unfoldable pub send : FlexranMessage → ℕ → World Q → World Q
  send msg agent_id w = record w { net_xface = (send_msg queue codec w.net_xface msg agent_id).0 }

  -- Handle hello message
  unfoldable pub handle_hello : ℕ → Direction → World Q → World Q
  handle_hello agent_id successful_outcome w =
      send lc_request_msg agent_id (send ue_request_msg agent_id (send enb_request_msg agent_id w))
  handle_hello agent_id not_set w = w
  handle_hello agent_id initiating_message w = w
  handle_hello agent_id unsuccessful_outcome w = w

  unfoldable pub handle_echo_request : ℕ → Header → World Q → World Q
  handle_echo_request agent_id header w =
      send
        (record {
          msg_dir = successful_outcome;
          msg = some (echo_reply (request echo_reply_type (some 0) header.xid));
        })
        agent_id w

  -- An update of the information base for an agent that has an entry.
  unfoldable pub if_known : ℕ → (Rib → Rib) → World Q → World Q
  if_known agent_id f w =
      if has_enb_config_entry agent_id w.rib then record w { rib = f w.rib } else w

  unfoldable pub handle_echo_reply : ℕ → ℕ → World Q → World Q
  handle_echo_reply clock agent_id = if_known agent_id (liveness_update clock agent_id)

  unfoldable pub handle_sf_trigger : ℕ → ℕ → SfTrigger → World Q → World Q
  handle_sf_trigger clock agent_id t = if_known agent_id (set_subframe_updates clock agent_id t)

  unfoldable pub handle_enb_config_reply : ℕ → ℕ → List CellConfig → World Q → World Q
  handle_enb_config_reply clock agent_id cells w =
      if agent_is_pending agent_id w.rib
      then record w {
        rib =
            enb_config_update clock agent_id cells
              (remove_pending_agent agent_id (new_enb_config_entry clock agent_id w.rib));
      }
      else w

  unfoldable pub handle_ue_config_reply : ℕ → ℕ → List UeConfig → World Q → World Q
  handle_ue_config_reply clock agent_id ues =
      if_known agent_id (ue_config_update clock agent_id ues)

  unfoldable pub handle_lc_config_reply : ℕ → ℕ → List LcUeConfig → World Q → World Q
  handle_lc_config_reply clock agent_id lcs =
      if_known agent_id (lc_config_update clock agent_id lcs)

  unfoldable pub handle_stats_reply : ℕ → StatsReply → World Q → World Q
  handle_stats_reply agent_id s = if_known agent_id (mac_stats_update agent_id s)

  unfoldable pub handle_ue_state_change : ℕ → UeStateChange → World Q → World Q
  handle_ue_state_change agent_id s w =
      if has_enb_config_entry agent_id w.rib
      then send lc_request_msg agent_id (record w { rib = ue_state_update agent_id s w.rib })
      else w

  -- The chain of tests on the kind of message in update_rib.
  unfoldable pub dispatch : ℕ → ℕ → Direction → Option Body → World Q → World Q
  dispatch clock agent_id dir none w = w
  dispatch clock agent_id dir (some (hello h)) w = handle_hello agent_id dir w
  dispatch clock agent_id dir (some (echo_request h)) w = handle_echo_request agent_id h w
  dispatch clock agent_id dir (some (echo_reply h)) w = handle_echo_reply clock agent_id w
  dispatch clock agent_id dir (some (stats_reply h s)) w = handle_stats_reply agent_id s w
  dispatch clock agent_id dir (some (sf_trigger h t)) w = handle_sf_trigger clock agent_id t w
  dispatch clock agent_id dir (some (enb_config_reply h cs)) w =
      handle_enb_config_reply clock agent_id cs w
  dispatch clock agent_id dir (some (ue_config_reply h us)) w =
      handle_ue_config_reply clock agent_id us w
  dispatch clock agent_id dir (some (lc_config_reply h ls)) w =
      handle_lc_config_reply clock agent_id ls w
  dispatch clock agent_id dir (some (ue_state_change h s)) w = handle_ue_state_change agent_id s w
  dispatch clock agent_id dir (some _) w = w

  -- The body of the loop of update_rib: an empty message tells of a new connection.
  unfoldable pub handle : ℕ → TaggedMessage → World Q → World Q
  handle clock tm w =
      let in_message = codec.parse tm.msg_contents in
      if tm.size == 0
      then send hello_msg tm.tag (record w { rib = add_pending_agent tm.tag w.rib })
      else dispatch clock tm.tag in_message.msg_dir in_message.msg w

  -- `clock` gives the reading for the message that is handled when so many may still be.
  -- The message is taken from the queue before the number that is left is looked at.
  unfoldable pub update_rib : (ℕ → ℕ) → ℕ → World Q → World Q
  update_rib clock zero w = record w { net_xface = (get_msg_from_network queue w.net_xface).0 }
  update_rib clock (suc rem_msgs) w =
      let (x, taken) = get_msg_from_network queue w.net_xface in
      let w' = record w { net_xface = x } in
      elim taken [ none ↦ w' | some tm ↦ update_rib clock rem_msgs (handle (clock rem_msgs) tm w') ]

abbrev pub messages_to_check : ℕ
messages_to_check = 350
