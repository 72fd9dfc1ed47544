-- ===== src/Rib/Updater/Agents.antt =====
-- The life of an agent in the information base, as src/rib/rib_updater.cc drives it.
use flexran_rtc.Base.{
  ℕ, ◌≡◌, refl, inl, inr, Bool-cases, Bool, true, false, Option, none, some, List, arith, ◌==◌,
  ◌&&◌, ◌||◌, not, if◌then◌else◌, ==_iff,
}
use flexran_rtc.Messages.{
  Direction, successful_outcome, Body, hello, echo_request, echo_reply, stats_reply, sf_trigger,
  enb_config_reply, ue_config_reply, lc_config_reply, ue_state_change, CellConfig, UeStateChange,
  FlexranMessage,
}
use flexran_rtc.Network.Tagged.{TaggedMessage}
use flexran_rtc.Network.Xface.{Lockfree, Codec}
use flexran_rtc.Rib.Enb.{
  EnbRibInfo, update_liveness, update_enb_config, update_ue_config, change_ue_state,
  update_lc_config, update_subframe, update_mac_stats,
}
use flexran_rtc.Rib.Store.{
  remove_pending_agent, new_enb_config_entry, agent_is_pending, get_agent, present, update_entry,
  ue_state_update, enb_config_update, liveness_update, set_subframe_updates, ue_config_update,
  lc_config_update, mac_stats_update,
}
use flexran_rtc.Rib.Store.Laws.{
  get_agent-update_entry, pending-update_entry, get_agent-new_enb_config_entry,
  pending-add_pending_agent, pending-remove_pending_agent, get_agent-remove_pending_agent,
  get_agent-add_pending_agent, pending-new_enb_config_entry,
}
use flexran_rtc.Rib.Updater.{
  World, send, dispatch, handle, handle_enb_config_reply, if_known, handle_ue_state_change,
  handle_hello, handle_echo_request, handle_echo_reply, handle_sf_trigger, handle_ue_config_reply,
  handle_lc_config_reply, handle_stats_reply,
}

abbrev pub is_enb_reply : Option Body → Bool
is_enb_reply (some (enb_config_reply h cs)) = true
is_enb_reply _ = false

module _ {Q : Type 0} (queue : Lockfree Q) (codec : Codec) where
  -- One message and the pending flag and the presence of agent `id`.
  record Life (clock tag id : ℕ) (reply : Bool) (w w' : World Q) : Type 0 where
    pending :
        agent_is_pending id w'.rib
        ≡ (if tag == id && reply then false else agent_is_pending id w.rib)
    available :
        present (get_agent id w'.rib)
        ≡ (present (get_agent id w.rib) || (tag == id && (reply && agent_is_pending id w.rib)))

  abbrev Unchanged : ℕ → World Q → World Q → Type 0
  Unchanged id w w' =
      (agent_is_pending id w'.rib ≡ agent_is_pending id w.rib)
      × (present (get_agent id w'.rib) ≡ present (get_agent id w.rib))

  Unchanged-Life :
      (clock tag id : ℕ) (w w' : World Q) → Unchanged id w w' → Life clock tag id false w w'
  Unchanged-Life clock tag id w w' u = ground arith

  update_entry-Unchanged :
      (f : EnbRibInfo → EnbRibInfo) (tag id : ℕ) (w : World Q)
      → Unchanged id w (record w { rib = update_entry f tag w.rib })
  update_entry-Unchanged f tag id w =
      ground (arith, pending-update_entry f tag id w.rib, get_agent-update_entry f tag id w.rib)

  if_known-Unchanged :
      (f : EnbRibInfo → EnbRibInfo) (tag id : ℕ) (w : World Q)
      → Unchanged id w (if_known queue codec tag (update_entry f tag) w)
  unfolding if_known
  if_known-Unchanged f tag id w = ground (arith, update_entry-Unchanged f tag id w)

  send-Unchanged :
      (msg : FlexranMessage) (tag id : ℕ) (w w' : World Q)
      → Unchanged id w w'
      → Unchanged id w (send queue codec msg tag w')
  unfolding send
  send-Unchanged msg tag id w w' u = u

  ue_state_change-Unchanged :
      (tag id : ℕ) (s : UeStateChange) (w : World Q)
      → Unchanged id w (handle_ue_state_change queue codec tag s w)
  unfolding handle_ue_state_change ue_state_update send
  ue_state_change-Unchanged tag id s w =
      ground (arith, update_entry-Unchanged (change_ue_state s) tag id w)

  enb_reply-Life :
      (clock tag id : ℕ) (cells : List CellConfig) (w : World Q)
      → Life clock tag id true w (handle_enb_config_reply queue codec clock tag cells w)
  unfolding handle_enb_config_reply enb_config_update
  enb_reply-Life clock tag id cells w =
      let r = w.rib in
      let created = new_enb_config_entry clock tag r in
      let settled = remove_pending_agent tag created in
      ground (
        arith,
        ==_iff tag id,
        pending-update_entry (update_enb_config clock cells) tag id settled,
        pending-remove_pending_agent tag id created,
        pending-new_enb_config_entry clock tag id r,
        get_agent-update_entry (update_enb_config clock cells) tag id settled,
        get_agent-remove_pending_agent tag id created,
        get_agent-new_enb_config_entry clock tag id r,
      )

  dispatch-Life :
      (clock tag id : ℕ) (dir : Direction) (msg : Option Body) (w : World Q)
      → Life clock tag id (is_enb_reply msg) w (dispatch queue codec clock tag dir msg w)
  unfolding dispatch handle_hello handle_echo_request handle_echo_reply handle_sf_trigger
      handle_ue_config_reply handle_lc_config_reply handle_stats_reply liveness_update
      set_subframe_updates ue_config_update lc_config_update mac_stats_update send
  dispatch-Life clock tag id dir none w = Unchanged-Life clock tag id w w (refl, refl)
  dispatch-Life clock tag id successful_outcome (some (hello h)) w =
      Unchanged-Life clock tag id w _ (refl, refl)
  dispatch-Life clock tag id _ (some (hello h)) w = Unchanged-Life clock tag id w w (refl, refl)
  dispatch-Life clock tag id dir (some (echo_request h)) w =
      Unchanged-Life clock tag id w _ (refl, refl)
  dispatch-Life clock tag id dir (some (echo_reply h)) w =
      Unchanged-Life clock tag id w _ (if_known-Unchanged (update_liveness clock) tag id w)
  dispatch-Life clock tag id dir (some (stats_reply h s)) w =
      Unchanged-Life clock tag id w _ (if_known-Unchanged (update_mac_stats s) tag id w)
  dispatch-Life clock tag id dir (some (sf_trigger h t)) w =
      Unchanged-Life clock tag id w _ (if_known-Unchanged (update_subframe clock t) tag id w)
  dispatch-Life clock tag id dir (some (ue_config_reply h us)) w =
      Unchanged-Life clock tag id w _ (if_known-Unchanged (update_ue_config clock us) tag id w)
  dispatch-Life clock tag id dir (some (lc_config_reply h ls)) w =
      Unchanged-Life clock tag id w _ (if_known-Unchanged (update_lc_config clock ls) tag id w)
  dispatch-Life clock tag id dir (some (ue_state_change h s)) w =
      Unchanged-Life clock tag id w _ (ue_state_change-Unchanged tag id s w)
  dispatch-Life clock tag id dir (some (enb_config_reply h cs)) w = enb_reply-Life clock tag id cs w
  dispatch-Life clock tag id dir (some _) w = Unchanged-Life clock tag id w w (refl, refl)

  -- A message of `tag` and agent `id`. The agent becomes pending by an empty message of its
  -- own and stops being pending by its eNB configuration reply; it becomes available exactly
  -- by that reply while it is pending; and no message ends the availability of any agent.
  pub handle_agents :
      (clock id : ℕ) (tm : TaggedMessage) (w : World Q)
      → let w' = handle queue codec clock tm w in
        let reply = is_enb_reply (codec.parse tm.msg_contents).msg in
        let mine = tm.tag == id in
        let pending = agent_is_pending id w.rib in
        let opened = tm.size == 0 in
        (agent_is_pending id w'.rib
          ≡ (if mine then (if opened then true else if reply then false else pending) else pending))
        × (present (get_agent id w'.rib)
            ≡ (present (get_agent id w.rib) || (mine && (not opened && (reply && pending)))))
  unfolding handle send
  handle_agents clock id tm w = elim (Bool-cases (tm.size == 0)) [
    | inl e ↦ rw e (
        ground (
          arith,
          pending-add_pending_agent tm.tag id w.rib,
          get_agent-add_pending_agent tm.tag id w.rib,
        ))
    | inr e ↦
        let p = codec.parse tm.msg_contents in
        let life = dispatch-Life clock tm.tag id p.msg_dir p.msg w in
        rw e (ground (arith, life.pending, life.available))
  ]
