-- ===== src/Tests/Core.antt =====
-- The whole controller at concrete inputs: an agent connects and sends its configuration.
use Prim.Native.String.{String}
use flexran_rtc.Base.{ℕ, ◌==◌, refl, Bool, false, Option, none, some, List, [], ◌∷◌, arith}
use flexran_rtc.Base.Faults.{Returns}
use flexran_rtc.Base.Int.{pos}
use flexran_rtc.Base.Maps.{find-nil}
use flexran_rtc.Network.Tagged.{TaggedMessage}
use flexran_rtc.Network.Xface.{Xface}
use flexran_rtc.Rib.Store.{empty_rib, get_agent}
use flexran_rtc.Rib.Enb.{EnbRibInfo, new_enb}
use flexran_rtc.Rib.Updater.{World, update_rib}
use flexran_rtc.Rib.Updater.Lifecycle.{Run, phase, events, update_rib-Run}
use flexran_rtc.Rib.Updater.Fit.{RibFit, AllExpected, update_rib-Fit}
use flexran_rtc.Sched.Eicic.{Eicic}
use flexran_rtc.Sched.Eicic
use flexran_rtc.Sched.Eicic.Turns.{Sent, run_periodic_task-Sent}
use flexran_rtc.Core.{System, new_system}
use flexran_rtc.NorthApi.{apply_policy, apply_policy_string, change_scheduler}
use flexran_rtc.NorthApi.Answers.{
  Loaded, Applied, named_policy, mode, change_scheduler_lem, apply_policy_lem,
}
use flexran_rtc.Tests.Queue.{cell, list_queue, byte_codec, parse_body}
use flexran_rtc.Tests.Flexible.{locals}
use flexran_rtc.Tests.Central.{memory, controller}
use text.Mathlib.Text

abbrev connected : TaggedMessage
connected = record { tag = 7; size = 0; msg_contents = []; dynamic_alloc = false }

abbrev configured : TaggedMessage
configured = record { tag = 7; size = 1; msg_contents = 1 ∷ []; dynamic_alloc = false }

abbrev arrived : List TaggedMessage
arrived = connected ∷ configured ∷ []

abbrev xface : Xface (List TaggedMessage)
xface = record { in_queue = arrived; out_queue = []; posted = 0 }

abbrev files : String → Option String
files path = some "contents"

abbrev system : System (List TaggedMessage)
system = new_system xface locals

abbrev clock : ℕ → ℕ
clock n = 5

abbrev start : World (List TaggedMessage)
start = record { net_xface = xface; rib = empty_rib }

lived :
    Run
      (phase 7 start.rib)
      (events list_queue byte_codec 7 2 arrived)
      (phase 7 (update_rib list_queue byte_codec clock 2 start).rib)
unfolding list_queue
lived = update_rib-Run list_queue byte_codec clock 7 2 start arrived refl

few_expected : AllExpected list_queue byte_codec clock 2 arrived start
unfolding AllExpected byte_codec parse_body
few_expected = ((λ e. tt), ((λ e. (omega arith, tt)), tt))

no_agents : RibFit empty_rib
unfolding get_agent
no_agents a e q = absurd (ground (arith, rw (find-nil a) at q))

kept_fit : RibFit (update_rib list_queue byte_codec clock 2 start).rib
unfolding list_queue
kept_fit = update_rib-Fit list_queue byte_codec clock 2 start arrived refl few_expected no_agents

-- The agent that the messages tell of has one cell and no UE.
abbrev only_agent : EnbRibInfo
only_agent = record (new_enb 5 7) { enb_config = cell ∷ [] }

-- The system with two agents, of which one has a UE.
abbrev busy_system : System (List TaggedMessage)
busy_system = record {
  net_xface = xface;
  rib = controller.rib;
  stats = record { agent_list = []; sent = [] };
  scheduler = controller.app;
}

loaded :
    Loaded
      (mode (pos 1))
      busy_system
      (change_scheduler list_queue byte_codec files none (pos 1) busy_system)
loaded = change_scheduler_lem list_queue byte_codec files none (pos 1) busy_system

policy_answered :
    Applied list_queue byte_codec
      (Text.◌==◌ "a" "")
      (named_policy list_queue byte_codec files none "a")
      busy_system
      (apply_policy list_queue byte_codec files none "a" busy_system)
    × Applied list_queue byte_codec false
        (some "a")
        busy_system
        (apply_policy_string list_queue byte_codec files none "a" busy_system)
policy_answered = apply_policy_lem list_queue byte_codec files none "a" busy_system

abbrev eicic : Eicic
eicic = record { scheduling_info = []; sent = [] }

one_turn :
    Returns
      (Eicic.run_periodic_task memory controller.rib eicic)
      (λ s. (macro_turn : Bool) × Sent macro_turn eicic s)
one_turn = run_periodic_task-Sent memory controller.rib eicic
