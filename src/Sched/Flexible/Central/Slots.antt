-- ===== src/Sched/Flexible/Central/Slots.antt =====
-- The body of run_central_scheduler of src/app/flexible_scheduler.cc for one agent returns, and
-- schedules a slot once.
use flexran_rtc.Sched.Preprocessor.Sorting.{Permutes}
use flexran_rtc.Base.{
  ◌&&◌, not, ℕ, ◌∷◌, ◌≤◌, ◌||◌, ◌≡◌, refl, sym, ◌∙◌, inl, inr, Bool, true, false, some, List, [],
  arith, ◌==◌, ==_iff, Bool-cases, All,
}
use flexran_rtc.Base.Faults.{Returns, for_each-Returns}
use flexran_rtc.Base.Maps.{find}
use flexran_rtc.Rib.Enb.{EnbRibInfo}
use flexran_rtc.Rib.Store.{get_agent, get_available_agents}
use flexran_rtc.Sched.Info.{EnbSchedulingInfo, needs_scheduling}
use flexran_rtc.Sched.Info.Channels.{Within, Apart, has_cell}
use flexran_rtc.Messages.{CellConfig}
use flexran_rtc.Sched.Helper.{UeStats}
use flexran_rtc.Sched.Preprocessor.{in_cell}
use flexran_rtc.Sched.Preprocessor.Run.Entries.{has_entry}
use flexran_rtc.Sched.Flexible.{Flexible}
use flexran_rtc.Sched.Flexible.Round.{Round, schedule_cell}
use flexran_rtc.Sched.Flexible.Round.Sound.{Sound, Scheduled}
use flexran_rtc.Sched.Flexible.Round.Harq.{Own, schedule_cell-Sound}
use flexran_rtc.Sched.Flexible.Central.{
  Memory, Controller, target_slot, ensure_info, finish, schedule_cells, schedule_slot, is_due,
  schedule_agent,
}
use flexran_rtc.Sched.Flexible.Central.Prepared.{prepare_cells-Prepared, prepare_cells-Channels}
use flexran_rtc.Sched.Flexible.Central.Health.{
  InfoFit, Schedulable, Healthy, checked, finish-info, finish-agent, finish-locals,
  ensure_info-locals, finish-agents, finish-Healthy, ensure_info-Found, ensure_info-kept,
  ensure_info-Healthy,
}

-- What is due is not in subframe 0 or 5.
pub not_blank : (needed blank : Bool) → (needed && not blank) ≡ true → blank ≡ false
not_blank needed blank h = ground (arith, h)

-- Each cell of an eNodeB is its own, where the numbers tell the configurations.
pub Own-all :
    (e : EnbRibInfo) (cell_of : ℕ → CellConfig) (P : CellConfig → Type 0) (cells : List CellConfig)
    → ((c : ℕ) → has_cell cells c ≡ true → has_cell e.enb_config c ≡ true)
    → Apart cell_of cells
    → All Within cells
    → All P cells
    → All (λ cell. Own e cell_of cell × P cell) cells
Own-all e cell_of P [] listed a w h = tt
Own-all e cell_of P (cell ∷ cells) listed a w h = (
  ((a.0, listed cell.cell_id (ground (arith, ==_iff cell.cell_id cell.cell_id)), w.0), h.0),
  Own-all e cell_of P cells (λ c q. listed c (ground (arith, q))) a.1 w.1 h.1,
)

-- The slot that was looked at last is not due.
pub checked_slot :
    (e : EnbRibInfo) (s : EnbSchedulingInfo)
    → s.last_checked_frame ≡ e.current_frame
    → s.last_checked_subframe ≡ e.current_subframe
    → needs_scheduling s e.current_frame e.current_subframe ≡ false
unfolding needs_scheduling
checked_slot e s p q = ground (
  arith,
  p,
  q,
  ==_iff s.last_checked_frame e.current_frame,
  ==_iff s.last_checked_subframe e.current_subframe,
)

module _ (sort : List UeStats → List UeStats) (m : Memory) where
  -- The agent and its scheduling information are there, and its slot is not due.
  abbrev pub Idle : ℕ → Controller → Type 0
  Idle a w =
      (e : EnbRibInfo) × (s : EnbSchedulingInfo) × (get_agent a w.rib ≡ some e)
      × (find a (w.app).scheduling_info ≡ some s)
      × (is_due sort m e s ≡ false)

  ensured_same :
      (a : ℕ) (w : Controller) (s : EnbSchedulingInfo)
      → find a (w.app).scheduling_info ≡ some s
      → ensure_info m a w.app ≡ w.app
  unfolding ensure_info
  ensured_same a w s es = rw (ensure_info, es) refl

  -- An agent whose slot is not due is passed over.
  pub Idle-schedule_agent : (a : ℕ) (w : Controller) → Idle a w → schedule_agent sort m a w ≡ some w
  unfolding schedule_agent
  Idle-schedule_agent a w (e, s, eg, es, idle) = rw (eg, ensured_same a w s es, es, idle) refl

  module _ (a : ℕ) (e : EnbRibInfo) (frame subframe : ℕ) (r : Round) (w : Controller) where
    -- The slot of the agent is not due after the end of the body for it.
    finish-Idle :
        (s : EnbSchedulingInfo)
        → get_agent a w.rib ≡ some e
        → find a (w.app).scheduling_info ≡ some s
        → (r.enb).current_frame ≡ e.current_frame
        → (r.enb).current_subframe ≡ e.current_subframe
        → Idle a (finish a e frame subframe r w)
    finish-Idle s eg es same_frame same_subframe = (
      r.enb,
      checked e r,
      finish-agent a e frame subframe r w a eg ∙ ground (arith, ==_iff a a),
      finish-info a e frame subframe r w a s es ∙ ground (arith, ==_iff a a),
      ground (arith, checked_slot r.enb (checked e r) (sym same_frame) (sym same_subframe)),
    )

    -- Those of the others are as before.
    finish-others :
        (b : ℕ) (s : EnbSchedulingInfo)
        → get_agent a w.rib ≡ some e
        → find a (w.app).scheduling_info ≡ some s
        → (a == b) ≡ false
        → Idle b w
        → Idle b (finish a e frame subframe r w)
    finish-others b s eg es other (e', s', eg', es', idle) = (
      e',
      s',
      finish-agent a e frame subframe r w b eg ∙ rw other eg',
      finish-info a e frame subframe r w b s es ∙ rw other es',
      idle,
    )

    -- No agent is lost.
    finish-there :
        (b : ℕ) (e' : EnbRibInfo)
        → get_agent a w.rib ≡ some e
        → get_agent b w.rib ≡ some e'
        → (e'' : EnbRibInfo) × (get_agent b (finish a e frame subframe r w).rib ≡ some e'')
    finish-there b e' eg q =
        let found = finish-agent a e frame subframe r w b eg in
        elim (Bool-cases (a == b)) [
          | inl is ↦ (r.enb, found ∙ rw is refl)
          | inr other ↦ (e', found ∙ rw other q)
        ]

  -- What the loops over the cells of an agent leave: its slot and cells, UEs that are known and
  -- have few blocks, and HARQ processes of the message that are taken.
  pub record CellsScheduled (e : EnbRibInfo) (r : Round) : Type 0 where
    pub same_frame : (r.enb).current_frame ≡ e.current_frame
    pub same_subframe : (r.enb).current_subframe ≡ e.current_subframe
    pub fit : Schedulable r.enb
    pub info : InfoFit r.sched
    pub level : (r.locals).aggregation ≤ 3
    pub busy : All (Scheduled r.enb) r.dl_ue_data

  module _ (perm : Permutes sort) where
    schedule_cells-Returns :
        (e : EnbRibInfo) (frame subframe : ℕ) (s : EnbSchedulingInfo) (f : Flexible)
        → (subframe == 0 || subframe == 5) ≡ false
        → (f.locals).aggregation ≤ 3
        → Schedulable e
        → InfoFit s
        → Returns (schedule_cells sort m e frame subframe s f) (CellsScheduled e)
    unfolding schedule_cells
    schedule_cells-Returns e frame subframe s f plain level (fit, ready) info =
        let (s', prepared, (p, _)) =
          prepare_cells-Prepared sort perm m e subframe e.enb_config s plain fit.0 ready.short
            ready.within info.0 info.1 in
        let (channels, _) =
          prepare_cells-Channels sort m e subframe ready.cell_of e.enb_config s s' plain ready.apart
            prepared in
        let start : Round = record { enb = e; sched = s'; locals = f.locals; dl_ue_data = [] } in
        let entered : ℕ → Bool = λ r. has_entry r s' in
        let sound : Sound entered e ready.cell_of subframe start = record {
          slot = (refl, refl);
          cells = refl;
          configs = refl;
          symbols = p.symbols;
          channels = channels;
          level = level;
          entries = λ r h. h;
          few = p.few;
          busy = tt;
          ues = fit.0;
        } in
        let (r, er, q) =
          for_each-Returns (Sound entered e ready.cell_of subframe)
            (λ cell.
              Own e ready.cell_of cell
              × All (λ c. in_cell cell c ≡ true → entered c.rnti ≡ true) e.ue_config)
            (schedule_cell e.ue_config frame subframe)
            (λ cell r' z t.
              schedule_cell-Sound entered e ready.cell_of subframe cell z.0 frame e.ue_config r' z.1
                t)
            e.enb_config start
            (Own-all e ready.cell_of
              (λ cell. All (λ c. in_cell cell c ≡ true → entered c.rnti ≡ true) e.ue_config)
              e.enb_config (λ c h. h) ready.apart ready.within p.entered)
            sound in
        (
          r,
          rw prepared er,
          record {
            same_frame = q.slot.0;
            same_subframe = q.slot.1;
            fit = (
              (q.ues, rw q.cells fit.1),
              record {
                cell_of = ready.cell_of;
                apart = rw q.cells ready.apart;
                within = rw q.cells ready.within;
                short = rw q.configs ready.short;
              },
            );
            info = (q.symbols, q.few);
            level = q.level;
            busy = q.busy;
          },
        )

    -- What the body for an agent leaves: all agents and information as required, its own slot not
    -- due, and of the others those that were not due.
    pub record Visited (a : ℕ) (w w' : Controller) : Type 0 where
      pub healthy : Healthy w'
      pub level : ((w'.app).locals).aggregation ≤ 3
      pub own : Idle a w'
      pub others : (b : ℕ) → Idle b w → Idle b w'
      pub agents : get_available_agents w'.rib ≡ get_available_agents w.rib
      pub there :
          (b : ℕ) (e : EnbRibInfo)
          → get_agent b w.rib ≡ some e
          → (e' : EnbRibInfo) × (get_agent b w'.rib ≡ some e')

    schedule_slot-Visited :
        (a : ℕ) (w : Controller) (e : EnbRibInfo) (s : EnbSchedulingInfo)
        → (let subframe = (target_slot e.current_frame e.current_subframe).1 in
            (subframe == 0 || subframe == 5) ≡ false)
        → ((w.app).locals).aggregation ≤ 3
        → Healthy w
        → get_agent a w.rib ≡ some e
        → find a (w.app).scheduling_info ≡ some s
        → Returns (schedule_slot sort m a e s w) (Visited a w)
    unfolding schedule_slot
    schedule_slot-Visited a w e s plain level h eg es =
        let (frame, subframe) = target_slot e.current_frame e.current_subframe in
        let (r, er, d) =
          schedule_cells-Returns e frame subframe s w.app plain level (h.agents a e eg)
            (h.infos a s es) in
        let own = finish-Idle a e frame subframe r w s eg es d.same_frame d.same_subframe in
        (
          finish a e frame subframe r w,
          rw er refl,
          record {
            healthy = finish-Healthy a e s frame subframe r w eg es d.fit d.info h;
            level = rw (finish-locals a e frame subframe r w) d.level;
            own = own;
            others = λ b idle. elim (Bool-cases (a == b)) [
              | inl is ↦ rw (← (==_iff a b).0 is) own
              | inr other ↦ finish-others a e frame subframe r w b s eg es other idle
            ];
            agents = finish-agents a e frame subframe r w;
            there = λ b e' q. finish-there a e frame subframe r w b e' eg q;
          },
        )

    -- For an agent that is there, where all agents and all scheduling information are as required
    -- and std::sort permutes: the body returns without a fault, and leaves them as required.
    pub schedule_agent-Visited :
        (a : ℕ) (w : Controller) (e : EnbRibInfo)
        → ((w.app).locals).aggregation ≤ 3
        → Healthy w
        → get_agent a w.rib ≡ some e
        → Returns (schedule_agent sort m a w) (Visited a w)
    unfolding schedule_agent
    schedule_agent-Visited a w e level h eg =
        let w1 : Controller = record w { app = ensure_info m a w.app } in
        let (s, es) = ensure_info-Found m a w.app in
        let h1 = ensure_info-Healthy m a w h in
        let level1 : ((w1.app).locals).aggregation ≤ 3 = rw (ensure_info-locals m a w.app) level in
        let kept : (b : ℕ) → Idle b w → Idle b w1 =
          λ b (e', s', eg', es', idle). (e', s', eg', ensure_info-kept m a b w.app s' es', idle) in
        elim (Bool-cases (is_due sort m e s)) [
          | inr idle ↦ (
            w1,
            rw (eg, es, idle) refl,
            record {
              healthy = h1;
              level = level1;
              own = (e, s, eg, es, idle);
              others = kept;
              agents = refl;
              there = λ b e' q. (e', q);
            },
          )
          | inl due ↦
              let (w', ew, v) =
                schedule_slot-Visited a w1 e s
                  (not_blank (needs_scheduling s e.current_frame e.current_subframe) _ due) level1
                  h1 eg es in
              (
                w',
                rw (eg, es, due) ew,
                record {
                  healthy = v.healthy;
                  level = v.level;
                  own = v.own;
                  others = λ b i. v.others b (kept b i);
                  agents = v.agents;
                  there = v.there;
                },
              )
        ]
