-- ===== src/Rib/Updater/Lifecycle.antt =====
-- The life of an agent as src/rib/rib_updater.cc promises it, without the tables that keep it:
-- a state machine that the updater implements.
use flexran_rtc.Base.{
  ℕ, zero, suc, ◌≡◌, Bool, true, false, List, [], ◌∷◌, ◌==◌, ◌&&◌, ◌||◌, not, if◌then◌else◌,
}
use flexran_rtc.Network.Tagged.{TaggedMessage}
use flexran_rtc.Network.Xface.{Lockfree, Codec}
use flexran_rtc.Rib.Store.{Rib, agent_is_pending, get_agent, present}
use flexran_rtc.Rib.Updater.{World, handle, update_rib}
use flexran_rtc.Rib.Updater.Agents.{is_enb_reply, handle_agents}
use flexran_rtc.Rib.Updater.Budget.{handle_all, update_rib_lem}

-- An agent has no connection, waits for its first configuration, is available, or is available
-- and waits again.
pub data Phase : Type 0 where
  unknown : Phase
  pending : Phase
  available : Phase
  renewing : Phase

-- What a message is for the agent: its connection, its configuration, or anything else.
pub data Event : Type 0 where
  opened : Event
  configured : Event
  other : Event

-- One step of the machine.
pub data Step : Phase → Event → Phase → Type 0 where
  unknown-opened : Step unknown opened pending
  pending-opened : Step pending opened pending
  available-opened : Step available opened renewing
  renewing-opened : Step renewing opened renewing
  unknown-configured : Step unknown configured unknown
  pending-configured : Step pending configured available
  available-configured : Step available configured available
  renewing-configured : Step renewing configured available
  passed : (p : Phase) → Step p other p

-- A run of the machine over the events.
pub data Run : Phase → List Event → Phase → Type 0 where
  ended : (p : Phase) → Run p [] p
  stepped :
      (p q r : Phase) (e : Event) (es : List Event) → Step p e q → Run q es r → Run p (e ∷ es) r

abbrev phase_of : Bool → Bool → Phase
phase_of false false = unknown
phase_of true false = pending
phase_of false true = available
phase_of true true = renewing

-- The phase that the information base has an agent in.
abbrev pub phase : ℕ → Rib → Phase
phase id r = phase_of (agent_is_pending id r) (present (get_agent id r))

module _ {Q : Type 0} (queue : Lockfree Q) (codec : Codec) where
  abbrev event_of : Bool → Bool → Bool → Event
  event_of false opens reply = other
  event_of true true reply = opened
  event_of true false true = configured
  event_of true false false = other

  -- What a message of the queue is for the agent.
  abbrev pub event : ℕ → TaggedMessage → Event
  event id tm =
      event_of (tm.tag == id) (tm.size == 0) (is_enb_reply (codec.parse tm.msg_contents).msg)

  -- The events of the messages that one run handles.
  pub events : ℕ → ℕ → List TaggedMessage → List Event
  events id zero ms = []
  events id (suc n) [] = []
  events id (suc n) (m ∷ ms) = event id m ∷ events id n ms

  step_of :
      (waits there mine opens reply : Bool)
      → Step (phase_of waits there) (event_of mine opens reply) (
          phase_of
            (if mine then (if opens then true else if reply then false else waits) else waits)
            (there || (mine && (not opens && (reply && waits)))))
  step_of false false false opens reply = passed unknown
  step_of true false false opens reply = passed pending
  step_of false true false opens reply = passed available
  step_of true true false opens reply = passed renewing
  step_of false false true true reply = unknown-opened
  step_of true false true true reply = pending-opened
  step_of false true true true reply = available-opened
  step_of true true true true reply = renewing-opened
  step_of false false true false true = unknown-configured
  step_of true false true false true = pending-configured
  step_of false true true false true = available-configured
  step_of true true true false true = renewing-configured
  step_of false false true false false = passed unknown
  step_of true false true false false = passed pending
  step_of false true true false false = passed available
  step_of true true true false false = passed renewing

  -- Each message that is handled is one step of the machine.
  handle-Step :
      (clock id : ℕ) (tm : TaggedMessage) (w : World Q)
      → Step (phase id w.rib) (event id tm) (phase id (handle queue codec clock tm w).rib)
  handle-Step clock id tm w =
      let (waits, there) = handle_agents queue codec clock id tm w in
      rw (waits, there)
        (step_of (agent_is_pending id w.rib) (present (get_agent id w.rib)) (tm.tag == id)
          (tm.size == 0) (is_enb_reply (codec.parse tm.msg_contents).msg))

  handle_all-Run :
      (clock : ℕ → ℕ) (id n : ℕ) (ms : List TaggedMessage) (w : World Q)
      → Run (phase id w.rib) (events id n ms) (phase id (handle_all queue codec clock n ms w).rib)
  unfolding events handle_all
  handle_all-Run clock id zero ms w = ended (phase id w.rib)
  handle_all-Run clock id (suc n) [] w = ended (phase id w.rib)
  handle_all-Run clock id (suc n) (m ∷ ms) w =
      let w' = handle queue codec (clock n) m w in
      stepped (phase id w.rib) (phase id w'.rib) _ (event id m) (events id n ms)
        (handle-Step (clock n) id m w) (handle_all-Run clock id n ms w')

  -- For every agent, one run of update_rib is a run of the machine over the first messages of the
  -- queue, at most as many as it may handle: each is the agent's connection, its eNB
  -- configuration reply, or nothing to it.
  pub update_rib-Run :
      (clock : ℕ → ℕ) (id n : ℕ) (w : World Q) (ms : List TaggedMessage)
      → queue.contents w.net_xface.in_queue ≡ ms
      → Run (phase id w.rib) (events id n ms) (phase id (update_rib queue codec clock n w).rib)
  update_rib-Run clock id n w ms e =
      let (q, run, _) = update_rib_lem queue codec clock n w ms e in
      rw run (handle_all-Run clock id n ms w)
