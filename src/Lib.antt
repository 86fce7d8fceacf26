-- ===== src/Lib.antt =====
-- The C++ seat service of this repository (folder seat_service), from the CAN frames of the seat's ECU
-- to the gRPC service and the data broker.
--
-- Parts and files (paths from the repository's root; S stands for seat_service/src):
--   Controller*   S/lib/seat_adjuster/seat_controller/seat_controller.{h,cc}. `Context` is
--                 seatctrl_context_t, `Seat` adds the file's static variables and what the
--                 controller puts out. An operation seatctrl_f is the function f (`set_position`,
--                 `stop_movement`, `get_position`; init_ctx, open_ctx, close_ctx); handle_secu_stat,
--                 seatctrl_control_loop and seatctrl_threadFunc are `handle_secu_stat`,
--                 `control_loop` and `thread_loop`. Definitions are in Types, Commands, Status,
--                 ControlLoop, Thread, SetPosition, Lifecycle, Printing; the other files prove.
--   Adjuster*     S/lib/seat_adjuster/seat_adjuster.{h,cc}. `SeatAdjuster` is the abstract class
--                 as a record over any state; `Adjuster` is SeatAdjusterImpl.
--   Service*      S/lib/grpc_services/seats_grpc_service/seats_grpc_service.cc, over any
--                 `SeatAdjuster`; Service/Motor and Service/Arrival take SeatAdjusterImpl for it, down
--                 to the frames.
--   Feeder*       S/lib/broker_feeder/data_broker_feeder.{h,cc} and create_datapoint.h. Run is a
--                 machine with a phase for each point where another thread can interfere.
--                 Unordered maps are lists of entries; Feeder/Alike and Feeder/Store are about
--                 what does not depend on the order of these.
--   Client*       S/lib/broker_feeder/kuksa_client.cc; the texts of its codes are in Grpc.
--   Subscriber*   S/bin/seat_service/seat_position_subscriber.cc, over any `SeatAdjuster`.
--   DataFeeder*   S/bin/seat_service/seat_data_feeder.cc.
--   Main*         S/bin/seat_service/main.cc: arguments, wiring, the signal handler, and the end of Run.
--   System*       S/bin/seat_service/main.cc: the service while it runs. Requests, targets, frames, steps
--                 of the feeder and states of the connection are events on the two threads' states,
--                 of which the subscriber's holds the adjuster that all share.
--   Can*          S/lib/can_helpers: constructors and destructors, sending and receiving frames, and
--                 the messages to the broadcast manager.
--   SvcClient*    S/examples/seat_svc_client/seat_svc_client.cc, over the generated stub; SvcClient/Moves,
--                 Commands and Arrival take the service for the stub.
--   ControllerTool*  S/lib/seat_adjuster/seat_controller/main.cc, the test program of the controller.
--   Programs*     S/examples/broker_feeder, can_send and can_subscribe.
--   Prelude*      numbers, dictionaries, printf's numbers, and lemmas that the parts share.
--   Examples*     the theorems at concrete inputs.
--
-- How they interact: the adjuster calls the controller, whose reader thread calls back into the
-- adjuster with each new position; the data feeder turns these calls into values that the broker
-- feeder sends; the subscriber turns target positions of the broker into calls of the adjuster, as
-- the gRPC service does with its requests. Feeder and subscriber share one client, and its flag.
--
-- Modelling. Calls of the operating system, of the code generated from seat_ecu.dbc and of the broker
-- are parameters (`Platform`, `Environment`, `OpenCalls`, `CloseCalls`, `BrokerReplies`,
-- `Surroundings`, `Attempt`, `Stub`, `Stubs`, `Session`, `SocketCalls`): the theorems hold for every
-- answer, unless a hypothesis is stated.
-- While seatctrl_set_position sleeps, the reader thread works on the same context on whatever was
-- read (`arrivals`); between two sleeps the call is taken to run alone, although the source has no
-- locks. Calls of other threads reach the feeder between its steps and, within feedStoredValues,
-- between the swap and the restore. In the running service a call of the adjuster, with the frames that
-- arrive in it and its calls of the callback, is one event. A call of exit is recorded, and what follows it
-- has no meaning.
-- The start of the service (System/Running, `service`): the constructor of the adjuster starts the reader
-- thread, which reads `early` before SubscribePosition sets the callback; what it reads then is fed to
-- nobody. A frame under way at that moment counts as read before, if it finds no callback, and as read
-- after, if it finds one. The reader thread is taken to make its first statement before any request comes. The threads
-- of the feeder and the subscriber are created next; that of the subscriber makes its first statements
-- in an event of its own (`subscriber_starts`), at any time, after Shutdown too.
--
-- Bounds. Positions are uint8_t (255 is "unknown") and conversions wrap; `int ts` of the control loop
-- wraps at 32 bits; size_type wraps at 64. The reader thread, the feeder and the subscriber run over the
-- finite list of what they read or are told, and seatctrl_set_position retries 30 times, as in the source.
-- Fuel is used in two loops: the client's wait has the 151 rounds that its own limit of 15 s leaves, and the
-- feed loop of the example program 1002, since each round adds at least 1 up to a value above 1000. The
-- digits of a number are as many as its value at most.
--
-- Not modelled: where a text is logged, the debug switches for it, and texts other than those of
-- Controller/Printing, SvcClient/Printing, Grpc and Client/Calls; the gRPC library and its
-- server, getopt_long and the generated code, which are parameters; tests and the simulator of the
-- ECU; the Python services.
pub mod Prelude
pub mod Grpc
pub mod Client
pub mod Controller
pub mod Adjuster
pub mod Feeder
pub mod Service
pub mod Subscriber
pub mod System
pub mod DataFeeder
pub mod Can
pub mod Main
pub mod SvcClient
pub mod ControllerTool
pub mod Programs
pub mod Examples
