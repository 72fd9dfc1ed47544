-- ===== src/Rib/Updater/Fit.antt =====
-- What the schedulers require of the information base is kept by every message that
-- src/rib/rib_updater.cc handles, where the message tells of nothing that contradicts it.
use mathlib.Core.Option.{some-injective}
use flexran_rtc.Base.{
  ℕ, zero, suc, ◌≡◌, sym, ◌∙◌, inl, inr, false, Option, none, some, List, [], ◌∷◌, arith, ◌==◌,
  ==_iff, Bool-cases, Option-cases,
}
use flexran_rtc.Messages.{
  Direction, successful_outcome, Body, hello, echo_request, echo_reply, stats_reply, sf_trigger,
  enb_config_reply, ue_config_reply, lc_config_reply, ue_state_change, activated, CellConfig,
  UeStateChange,
}
use flexran_rtc.Network.Tagged.{TaggedMessage}
use flexran_rtc.Network.Xface.{Lockfree, Codec}
use flexran_rtc.Rib.Enb.{
  EnbRibInfo, new_enb, update_liveness, update_enb_config, update_ue_config, change_ue_state,
  update_lc_config, update_subframe, update_mac_stats,
}
use flexran_rtc.Rib.Enb.Known.{Distinct, has_ue}
use flexran_rtc.Rib.Enb.Fit.{
  Narrow, AgentFit, new_enb-Fit, update_liveness-Fit, update_enb_config-Fit, update_ue_config-Fit,
  change_ue_state-Fit, update_lc_config-Fit, update_subframe-Fit, update_mac_stats-Fit,
}
use flexran_rtc.Rib.Store.{
  Rib, get_agent, update_entry, new_enb_config_entry, remove_pending_agent, agent_is_pending,
  enb_config_update, ue_config_update, ue_state_update, lc_config_update, liveness_update,
  set_subframe_updates, mac_stats_update, has_enb_config_entry,
}
use flexran_rtc.Rib.Store.Laws.{
  get_agent-update_entry, get_agent-new_enb_config_entry, get_agent-remove_pending_agent,
  get_agent-add_pending_agent,
}
use flexran_rtc.Rib.Updater.{
  World, send, if_known, dispatch, handle, handle_hello, handle_echo_request, handle_echo_reply,
  handle_sf_trigger, handle_enb_config_reply, handle_ue_config_reply, handle_lc_config_reply,
  handle_stats_reply, handle_ue_state_change, update_rib,
}
use flexran_rtc.Rib.Updater.Budget.{handle_all, update_rib_lem}

-- Each agent is as the schedulers require it.
abbrev pub RibFit : Rib → Type 0
RibFit r = (a : ℕ) (e : EnbRibInfo) → get_agent a r ≡ some e → AgentFit e

-- What is required of a message of `agent_id`: bandwidths below 2 ^ 15, no UE twice in a list of
-- UEs, and none activated that is configured.
abbrev pub Welcome : ℕ → Rib → Option Body → Type 0
Welcome agent_id r (some (enb_config_reply h cells)) = Narrow cells
Welcome agent_id r (some (ue_config_reply h ues)) = Distinct ues
Welcome agent_id r (some (ue_state_change h s)) =
    (e : EnbRibInfo)
    → get_agent agent_id r ≡ some e
    → s.type ≡ activated
    → has_ue s.config.rnti e.ue_config ≡ false
Welcome agent_id r _ = Unit {0}

update_entry-Fit :
    (f : EnbRibInfo → EnbRibInfo) (tag : ℕ) (r : Rib)
    → ((e : EnbRibInfo) → get_agent tag r ≡ some e → AgentFit e → AgentFit (f e))
    → RibFit r
    → RibFit (update_entry f tag r)
update_entry-Fit f tag r k h a e q =
    let found = get_agent-update_entry f tag a r in
    elim (Bool-cases (tag == a)) [
      | inr other ↦ h a e (rw (found, other) at q)
      | inl is ↦
          let same : tag ≡ a = ground (arith, is, ==_iff tag a) in
          elim (Option-cases (get_agent a r)) [
            | inl gone ↦ absurd (ground (arith, rw (found, is, gone) at q))
            | inr (old, eo) ↦
                rw (← some-injective (f old) e (rw (found, is, eo) at q))
                  (k old (rw same eo) (h a old eo))
          ]
    ]

module _ {Q : Type 0} (queue : Lockfree Q) (codec : Codec) where
  if_known-Fit :
      (f : EnbRibInfo → EnbRibInfo) (tag : ℕ) (w : World Q)
      → ((e : EnbRibInfo) → AgentFit e → AgentFit (f e))
      → RibFit w.rib
      → RibFit (if_known queue codec tag (update_entry f tag) w).rib
  unfolding if_known
  if_known-Fit f tag w k h = elim (Bool-cases (has_enb_config_entry tag w.rib)) [
    | inl e ↦ rw (if_known, e) (update_entry-Fit f tag w.rib (λ x q. k x) h)
    | inr e ↦ rw (if_known, e) h
  ]

  new_entry-Fit : (clock tag : ℕ) (r : Rib) → RibFit r → RibFit (new_enb_config_entry clock tag r)
  new_entry-Fit clock tag r h a e q =
      let found = get_agent-new_enb_config_entry clock tag a r in
      elim (Option-cases (get_agent a r)) [
        | inr (old, eo) ↦ h a e (eo ∙ rw (found, eo) at q)
        | inl gone ↦ elim (Bool-cases (tag == a)) [
          | inl is ↦
              rw (← some-injective (new_enb clock tag) e (rw (found, gone, is) at q))
                (new_enb-Fit clock tag)
          | inr other ↦ absurd (ground (arith, rw (found, gone, other) at q))
        ]
      ]

  enb_reply-Fit :
      (clock tag : ℕ) (cells : List CellConfig) (w : World Q)
      → Narrow cells
      → RibFit w.rib
      → RibFit (handle_enb_config_reply queue codec clock tag cells w).rib
  unfolding handle_enb_config_reply enb_config_update
  enb_reply-Fit clock tag cells w n h = elim (Bool-cases (agent_is_pending tag w.rib)) [
    | inr e ↦ rw (handle_enb_config_reply, e) h
    | inl e ↦
        let created = new_enb_config_entry clock tag w.rib in
        let settled = remove_pending_agent tag created in
        rw (handle_enb_config_reply, e)
          (update_entry-Fit (update_enb_config clock cells) tag settled
            (λ x q k. update_enb_config-Fit x k clock cells n)
            (λ a x q.
              new_entry-Fit clock tag w.rib h a x
                (sym (get_agent-remove_pending_agent tag a created) ∙ q)))
  ]

  state_change-Fit :
      (tag : ℕ) (s : UeStateChange) (w : World Q)
      → ((e : EnbRibInfo)
          → get_agent tag w.rib ≡ some e
          → s.type ≡ activated
          → has_ue s.config.rnti e.ue_config ≡ false)
      → RibFit w.rib
      → RibFit (handle_ue_state_change queue codec tag s w).rib
  unfolding handle_ue_state_change ue_state_update send
  state_change-Fit tag s w fresh h = elim (Bool-cases (has_enb_config_entry tag w.rib)) [
    | inr e ↦ rw (handle_ue_state_change, e) h
    | inl e ↦
        rw (handle_ue_state_change, e)
          (update_entry-Fit (change_ue_state s) tag w.rib
            (λ x q k. change_ue_state-Fit x k s (fresh x q)) h)
  ]

  hello-Fit :
      (tag : ℕ) (dir : Direction) (w : World Q)
      → RibFit w.rib
      → RibFit (handle_hello queue codec tag dir w).rib
  unfolding handle_hello send
  hello-Fit tag successful_outcome w h = h
  hello-Fit tag _ w h = h

  dispatch-Fit :
      (clock tag : ℕ) (dir : Direction) (msg : Option Body) (w : World Q)
      → Welcome tag w.rib msg
      → RibFit w.rib
      → RibFit (dispatch queue codec clock tag dir msg w).rib
  unfolding dispatch handle_echo_request handle_echo_reply handle_sf_trigger handle_ue_config_reply
      handle_lc_config_reply handle_stats_reply liveness_update set_subframe_updates
      ue_config_update lc_config_update mac_stats_update send
  dispatch-Fit clock tag dir none w m h = h
  dispatch-Fit clock tag dir (some (hello x)) w m h = hello-Fit tag dir w h
  dispatch-Fit clock tag dir (some (echo_request x)) w m h = h
  dispatch-Fit clock tag dir (some (echo_reply x)) w m h =
      if_known-Fit (update_liveness clock) tag w (λ e k. update_liveness-Fit e k clock) h
  dispatch-Fit clock tag dir (some (stats_reply x s)) w m h =
      if_known-Fit (update_mac_stats s) tag w (λ e k. update_mac_stats-Fit e k s) h
  dispatch-Fit clock tag dir (some (sf_trigger x t)) w m h =
      if_known-Fit (update_subframe clock t) tag w (λ e k. update_subframe-Fit e k clock t) h
  dispatch-Fit clock tag dir (some (ue_config_reply x us)) w m h =
      if_known-Fit (update_ue_config clock us) tag w (λ e k. update_ue_config-Fit e k clock us m) h
  dispatch-Fit clock tag dir (some (lc_config_reply x ls)) w m h =
      if_known-Fit (update_lc_config clock ls) tag w (λ e k. update_lc_config-Fit e k clock ls) h
  dispatch-Fit clock tag dir (some (ue_state_change x s)) w m h = state_change-Fit tag s w m h
  dispatch-Fit clock tag dir (some (enb_config_reply x cs)) w m h = enb_reply-Fit clock tag cs w m h
  dispatch-Fit clock tag dir (some _) w m h = h

  -- What is required of a message of the queue; the message of a new connection is empty.
  abbrev pub Expected : TaggedMessage → World Q → Type 0
  Expected tm w = (tm.size == 0) ≡ false → Welcome tm.tag w.rib (codec.parse tm.msg_contents).msg

  handle-Fit :
      (clock : ℕ) (tm : TaggedMessage) (w : World Q)
      → Expected tm w
      → RibFit w.rib
      → RibFit (handle queue codec clock tm w).rib
  unfolding handle send
  handle-Fit clock tm w m h = elim (Bool-cases (tm.size == 0)) [
    | inl e ↦ rw e (λ a x q. h a x (sym (get_agent-add_pending_agent tm.tag a w.rib) ∙ q))
    | inr e ↦
        let p = codec.parse tm.msg_contents in
        rw e (dispatch-Fit clock tm.tag p.msg_dir p.msg w (m e) h)
  ]

  -- Each message that one run handles is expected in the state that it is handled in.
  unfoldable pub AllExpected : (ℕ → ℕ) → ℕ → List TaggedMessage → World Q → Type 0
  AllExpected clock zero ms w = Unit {0}
  AllExpected clock (suc n) [] w = Unit {0}
  AllExpected clock (suc n) (m ∷ ms) w =
      Expected m w × AllExpected clock n ms (handle queue codec (clock n) m w)

  handle_all-Fit :
      (clock : ℕ → ℕ) (n : ℕ) (ms : List TaggedMessage) (w : World Q)
      → AllExpected clock n ms w
      → RibFit w.rib
      → RibFit (handle_all queue codec clock n ms w).rib
  unfolding AllExpected handle_all
  handle_all-Fit clock zero ms w k h = h
  handle_all-Fit clock (suc n) [] w k h = h
  handle_all-Fit clock (suc n) (m ∷ ms) w k h =
      handle_all-Fit clock n ms (handle queue codec (clock n) m w) k.1
        (handle-Fit (clock n) m w k.0 h)

  -- Where each message that it handles has bandwidths below 2 ^ 15, lists no UE twice and
  -- activates none that is configured, a run of update_rib keeps that the configured UEs of every
  -- agent are known and that its bandwidths are below 2 ^ 15.
  pub update_rib-Fit :
      (clock : ℕ → ℕ) (n : ℕ) (w : World Q) (ms : List TaggedMessage)
      → queue.contents w.net_xface.in_queue ≡ ms
      → AllExpected clock n ms w
      → RibFit w.rib
      → RibFit (update_rib queue codec clock n w).rib
  update_rib-Fit clock n w ms e k h =
      let (q, run, _) = update_rib_lem queue codec clock n w ms e in
      rw run (handle_all-Fit clock n ms w k h)
