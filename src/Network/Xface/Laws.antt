-- ===== src/Network/Xface/Laws.antt =====
-- The interface of src/network/async_xface.cc with src/network/connection_manager.cc over
-- whatever order the network and the other tasks act in.
use flexran_rtc.Base.{
  ℕ, suc, ◌-◌, ◌≤◌, ◌<◌, ◌≡◌, refl, ap, ◌↔◌, none, some, List, [], ◌∷◌, arith, length,
  length-append,
}
use flexran_rtc.Base.Maps
use flexran_rtc.Base.Maps.{find-cons, find-nil, find-erase, find-modify}
use flexran_rtc.Messages.{FlexranMessage}
use flexran_rtc.Network.Tagged.{TaggedMessage, from_bytes}
use flexran_rtc.Network.Session.{start, deliver}
use flexran_rtc.Network.Xface.{
  Lockfree, Codec, Xface, Manager, forward_message, get_msg_from_network, send_msg,
  send_msg_to_agent, forward_msg_to_agent, accept, close_connection,
}

module _ {Q : Type 0} (queue : Lockfree Q) (codec : Codec) where
  -- A step of the network task or of another one: the updater or an application sends, a
  -- message came in, the updater takes one, a connection came or is closed, a handler runs.
  pub data Step : Xface Q × Manager → Xface Q × Manager → Type 0 where
    sends :
        (x : Xface Q) (m : Manager) (msg : FlexranMessage) (agent : ℕ)
        → Step (x, m) ((send_msg queue codec x msg agent).0, m)
    arrives :
        (x : Xface Q) (m : Manager) (msg : TaggedMessage)
        → Step (x, m) (forward_message queue x msg, m)
    takes : (x : Xface Q) (m : Manager) → Step (x, m) ((get_msg_from_network queue x).0, m)
    accepts : (x : Xface Q) (m : Manager) → Step (x, m) (accept queue x m)
    closes :
        (x : Xface Q) (m : Manager) (session_id : ℕ)
        → Step (x, m) (x, close_connection m session_id)
    forwards :
        (x : Xface Q) (m : Manager) (x' : Xface Q) (m' : Manager)
        → 0 < x.posted
        → forward_msg_to_agent queue x m ≡ some (x', m')
        → Step (x, m) (x', m')

  -- As many handlers wait as messages do, and the numbers given out are below the next one.
  record Inv (s : Xface Q × Manager) : Type 0 where
    posted : s.0.posted ≡ length (queue.contents s.0.out_queue)
    fresh : (k : ℕ) → s.1.next_id ≤ k → Maps.find k s.1.sessions ≡ none

  sends-posted :
      (x : Xface Q) (msg : FlexranMessage) (agent : ℕ)
      → x.posted ≡ length (queue.contents x.out_queue)
      → let x' = (send_msg queue codec x msg agent).0 in
        x'.posted ≡ length (queue.contents x'.out_queue)
  unfolding send_msg
  sends-posted x msg agent h =
      let tm = (from_bytes 0 (codec.serialize msg) (length (codec.serialize msg)) agent).0 in
      ground (
        arith,
        queue.push_contents tm x.out_queue,
        length-append (queue.contents x.out_queue) (tm ∷ []),
      )

  -- A handler takes the oldest outgoing message to the session of its number. A fault is
  -- exactly that there is no such session.
  pub forward_msg_to_agent_lem :
      (x : Xface Q) (m : Manager) (msg : TaggedMessage) (rest : List TaggedMessage)
      → queue.contents x.out_queue ≡ msg ∷ rest
      → forward_msg_to_agent queue x m ≡ (elim (Maps.find msg.tag m.sessions) [
        | none ↦ none
        | some s ↦ some (
          record x { out_queue = (queue.pop x.out_queue).0; posted = x.posted - 1 },
          record m { sessions = Maps.modify msg.tag (λ t. deliver t msg) m.sessions },
        )
      ])
  unfolding forward_msg_to_agent send_msg_to_agent
  forward_msg_to_agent_lem x m msg rest e =
      let (first, _) = queue.pop_cons x.out_queue msg rest e in ground (arith, first)

  forwards-Inv :
      (x : Xface Q) (m : Manager) (x' : Xface Q) (m' : Manager) (out : List TaggedMessage)
      → queue.contents x.out_queue ≡ out
      → 0 < x.posted
      → forward_msg_to_agent queue x m ≡ some (x', m')
      → Inv (x, m)
      → Inv (x', m')
  forwards-Inv x m x' m' [] o h e i = absurd (omega (arith, i.posted, ap length o))
  forwards-Inv x m x' m' (msg ∷ rest) o h e i =
      let step = forward_msg_to_agent_lem x m msg rest o in
      let (_, left) = queue.pop_cons x.out_queue msg rest o in
      record {
        posted = ground (arith, i.posted, step);
        fresh = λ k b.
            ground (arith, step, i.fresh k, find-modify msg.tag k (λ t. deliver t msg) m.sessions);
      }

  find-accept :
      (x : Xface Q) (m : Manager) (k : ℕ)
      → suc m.next_id ≤ k
      → Maps.find k m.sessions ≡ none
      → Maps.find k (accept queue x m).1.sessions ≡ none
  unfolding accept
  find-accept x m k b f = ground (
    arith,
    find-cons k m.next_id (start m.next_id) (Maps.erase m.next_id m.sessions),
    find-erase m.next_id k m.sessions,
  )

  Step-Inv : {s t : Xface Q × Manager} → Step s t → Inv s → Inv t
  unfolding forward_message get_msg_from_network accept close_connection
  Step-Inv (sends x m msg agent) i = record {
    posted = sends-posted x msg agent i.posted;
    fresh = i.fresh;
  }
  Step-Inv (arrives x m msg) i = record { posted = i.posted; fresh = i.fresh }
  Step-Inv (takes x m) i = record { posted = i.posted; fresh = i.fresh }
  Step-Inv (accepts x m) i = record {
    posted = i.posted;
    fresh = λ k b. accept_fresh k b (i.fresh k (omega arith));
  }
    where
      accept_fresh :
          (k : ℕ)
          → suc m.next_id ≤ k
          → Maps.find k m.sessions ≡ none
          → Maps.find k (accept queue x m).1.sessions ≡ none
      accept_fresh k b f = find-accept x m k b f
  Step-Inv (closes x m session_id) i = record {
    posted = i.posted;
    fresh = λ k b. ground (arith, i.fresh k b, find-erase session_id k m.sessions);
  }
  Step-Inv (forwards x m x' m' h e) i =
      forwards-Inv x m x' m' (queue.contents x.out_queue) refl h e i

  pub data Reach (s : Xface Q × Manager) : Xface Q × Manager → Type 0 where
    here : Reach s s
    next : {t u : Xface Q × Manager} → Reach s t → Step t u → Reach s u

  Reach-Inv : {s t : Xface Q × Manager} → Inv s → Reach s t → Inv t
  Reach-Inv i here = i
  Reach-Inv i (next r st) = Step-Inv st (Reach-Inv i r)

  -- The interface with its queues empty and no connection.
  abbrev pub IsInitial : Xface Q × Manager → Type 0
  IsInitial s = (queue.contents s.0.out_queue ≡ []) × (s.0.posted ≡ 0) × (s.1.sessions ≡ [])

  initial-Inv : (s : Xface Q × Manager) → IsInitial s → Inv s
  initial-Inv s (o, p, q) = record {
    posted = omega (arith, p, ap length o);
    fresh = λ k b. rw q (find-nil k);
  }

  faults_at :
      (t : Xface Q × Manager) (out : List TaggedMessage)
      → queue.contents t.0.out_queue ≡ out
      → 0 < t.0.posted
      → t.0.posted ≡ length (queue.contents t.0.out_queue)
      → (msg : TaggedMessage) × (rest : List TaggedMessage) × (queue.contents t.0.out_queue
          ≡ msg ∷ rest)
        × ((forward_msg_to_agent queue t.0 t.1 ≡ none) ↔ (Maps.find msg.tag t.1.sessions ≡ none))
  faults_at t [] o h p = absurd (omega (arith, p, ap length o))
  faults_at t (msg ∷ rest) o h p =
      let step = forward_msg_to_agent_lem t.0 t.1 msg rest o in
      (msg, rest, o, (λ e. ground (arith, step), λ e. ground (arith, step)))

  -- From the start on, in whatever order the tasks act, a handler that was posted finds a
  -- message to take, so it never reads from an empty queue: it faults exactly where the
  -- session of the oldest outgoing message is not there.
  pub forward_msg_to_agent_faults :
      {s t : Xface Q × Manager}
      → IsInitial s
      → Reach s t
      → 0 < t.0.posted
      → (msg : TaggedMessage) × (rest : List TaggedMessage) × (queue.contents t.0.out_queue
          ≡ msg ∷ rest)
        × ((forward_msg_to_agent queue t.0 t.1 ≡ none) ↔ (Maps.find msg.tag t.1.sessions ≡ none))
  forward_msg_to_agent_faults {s} {t} init r h =
      faults_at t (queue.contents t.0.out_queue) refl h (Reach-Inv (initial-Inv s init) r).posted
