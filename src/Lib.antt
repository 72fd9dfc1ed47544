-- ===== src/Lib.antt =====
-- FlexRAN real-time controller: the network interface to the agents, the RAN information base
-- that their messages keep up to date, the flexible scheduler that shares out the resource
-- blocks and the control channel of each cell, and the other applications that send messages.
--
-- How the parts interact. A session (src/network/agent_session.cc) cuts the bytes of a
-- connection into frames (protocol_message.cc) and forwards each body as a tagged message
-- (tagged_message.cc) to the incoming queue of the interface (async_xface.cc). The updater
-- (src/rib/rib_updater.cc) takes the messages from there, changes the information base (rib.cc,
-- enb_rib_info.cc, ue_mac_rib_info.cc) and answers through the outgoing queue, from which the
-- connection manager (connection_manager.cc) delivers to the sessions. The schedulers read the
-- information base and keep their own state (src/app/enb_scheduling_info.cc and
-- ue_scheduling_info.cc).
--
-- Base: lists, maps, bits and tests that the parts share. A std::map is an association list.
-- Messages: the protocol messages of src/MESSAGES/V2, with the fields that the code uses.
-- Network/Header: set_message, encode_header and decode_header of src/network/protocol_message.cc.
-- Network/Tagged: the constructors, operator= and destructor of src/network/tagged_message.cc,
--   with the number of heap buffers as the state.
-- Network/Session: deliver, do_write, do_read_header and do_read_body of
--   src/network/agent_session.cc; each completion handler is a function of its result.
-- Network/Xface: send_msg, forward_message and the others of src/network/async_xface.cc with
--   the sessions of src/network/connection_manager.cc; Laws has the steps of the tasks.
-- Rib/SfnSf: get_frame, get_subframe and get_sfn_sf of src/rib/rib_common.cc.
-- Rib/Ue, Rib/Enb, Rib/Store: src/rib/ue_mac_rib_info.cc, enb_rib_info.cc and rib.cc, a record
--   each, with a function for each method that changes it.
-- Rib/Updater: update_rib and the handlers of src/rib/rib_updater.cc.
-- Sched/Table: the tables of src/rib/rib_common.cc.
-- Sched/Primitives, Sched/Info: src/app/remote_scheduler_primitives.cc and the scheduling
--   information of eNodeBs and UEs.
-- Sched/Helper: assign_rbs_required, perform_pre_processor_allocation and compare_stats of
--   src/app/remote_scheduler_helper.cc.
-- Sched/Preprocessor: sort_UEs and run_dlsch_scheduler_preprocessor of the same file, a loop
--   each over the UEs.
-- Sched/Flexible: src/app/flexible_scheduler.cc; Fitting, Payload, Power and Transmission have
--   what run_central_scheduler does for one UE, Round its loop over the UEs of a cell, and Central
--   its loops over cells and agents and run_periodic_task.
-- Sched/Eicic: src/app/remote_scheduler_eicic.cc.
-- Sched/Remote: src/app/remote_scheduler.cc, of which run_periodic_task is run_remote_scheduler; it
--   uses the steps that the flexible scheduler has line for line.
-- Apps/Stats, Apps/Delegation: src/app/stats_manager.cc and delegation_manager.cc.
-- Core: src/core/task_manager.cc and requests_manager.cc, over what rt_controller.cc starts; Cycle
--   is about one round, Reach about all that the controller comes to from its start.
-- NorthApi: flexible_sched_calls.cc and stats_manager_calls.cc of src/north_api.
-- Rib/Dump: the dumps to texts of src/rib and of stats_manager.cc.
-- Tests: concrete inputs.
--
-- Parameters. The lock-free queue of boost is a first-in first-out queue whose push says
-- whether there was room (Lockfree); what protobuf generates is a pair of functions (Codec);
-- the readings of clock() are arguments. The
-- std::sort of libstdc++ is a function that permutes up to 16 elements, which it sorts by insertion
-- alone: compare_stats is true for ties, so that for longer lists the call is undefined behaviour,
-- for which `none` stands in the definitions. The contents of files, the environment and what memory holds before it is set are arguments too.
-- The schedulers and managers collect what they send in order; Core hands it to send_msg of the
-- interface when an application has run, as requests_manager does message by message. The threads
-- of a round run one after the other here, in any order.
--
-- Bounds and fuel. Integers are natural numbers with the conversions to the width of the C++
-- type written out. The loop of assign_rbs_required has fuel for one round for each block of
-- the bandwidth and one more, as each round adds a block at least. The search for control
-- channel elements has fuel for five rounds, as each adds one symbol and it stops at three. The
-- loop of the flexible scheduler over the blocks has fuel as that of assign_rbs_required has.
-- The other loops are by recursion on lists or on the number of rounds.
--
-- Not modelled: timers, sockets, program options and the system calls of src/core; logging and the
-- dumps to the console; the HTTP routes of src/north_api; and the older
-- scheduler src/app/remote_scheduler_delegation.cc, a variant that the build leaves out, as it leaves
-- out the eICIC scheduler and src/app/remote_scheduler.cc. An index past the end of an array is
-- undefined behaviour in the source; here it reads or writes a cell that no other code uses, but for
-- the HARQ arrays of a report, where it is an element of the next process or cell as in the source.
-- The theorems on the schedulers are for cells whose numbers and blocks fit the arrays. A division
-- by zero is `none`. The signed sums of the power control do not overflow here.
pub mod Base
pub mod Messages
pub mod Rib
pub mod Network
pub mod Sched
pub mod Apps
pub mod Core
pub mod NorthApi
pub mod Tests
