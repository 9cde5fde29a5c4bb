-- ===== src/Lib.antt =====
-- A verification library for the service recovery scheduler: the daemon that keeps a registry of
-- monitored services and drives recovery actions when one of them disappears from D-Bus.
--
-- Parts and files.
-- * lib_srs/inc/Common.hpp is States (RecoveryState, toString) and Catalogue (ServiceId,
--   g_MapServiceNames). A RecoveryState is any uint8_t: the bytes without an enumerator are the
--   constructor `unnamed`.
-- * lib_srs/inc/CRecoveryScheduler.hpp and lib_srs/src/CRecoveryScheduler.cpp are Service (one
--   SServiceRecoveryInfo and the bodies of the handlers on it) and Scheduler (the registry and the
--   handlers onServiceFailure, onRegisterService, onUnregisterService, onReportServiceState and
--   getServiceState). Scheduler/Requests is one step of the registry and Scheduler/Spec the abstract
--   services that it is compared with.
-- * Threads is the same file seen by several threads, if CommonAPI makes its calls from more than one:
--   onRegisterService takes the mutex only after its lookup, so it is two steps, and what it found
--   may be gone at the second.
-- * lib_srs/inc/CRecoverySchedulerStubImpl.hpp and lib_srs/src/CRecoverySchedulerStubImpl.cpp are
--   Wire (casts and client identities, with the enumerations of fidl/RecoveryScheduler.fidl) and Stub
--   (the peers, the callbacks and the methods).
-- * CRecoveryScheduler::init and ::run and the calls off the bus are Daemon: it installs the
--   scheduler's handlers as the stub's callbacks, and handles one call after the other.
--   Daemon/Contract is what the process promises its callers, without its maps, its pids and its
--   bounded numbers, and Daemon/Answers the replies alone.
-- * Handlers is the stub seen by several threads: its handlers lock the peers apart from the scheduler,
--   so a registration, an unregistration and a lost bus name are two steps each.
-- * other_apps_dummy/appA.cpp, appB.cpp and appC.cpp are Clients: the calls that each client makes.
-- * Journal has the LOG_ statements that the handlers of CRecoveryScheduler.cpp and the methods of
--   CRecoverySchedulerStubImpl.cpp come to: for each call and the state before it, the messages.
-- * main.cpp is Console: Console/Input has the reads of std::cin, Console the arguments, the start of
--   the process, printSnapshot and consoleLoop.
-- * lib_srs/inc/Logger.hpp is Logger: levels, the LOG_ macros' threshold and the text of a record;
--   Logger/Text has what std::cout makes of numbers and widths.
-- * gtest/src is UnitTests: the fixtures and the tests, run on the model of the code that they test.
-- * Base has the shared types: Base/Int the C++ integer conversions, Base/Map the unordered maps.
--
-- State and operations. A handler takes the state and returns it with its result. `Outcome` is the
-- result of code that can have undefined behaviour: `undefined` stands for an index out of a
-- vector's bounds and, in Threads, a write through an iterator whose element is gone. int8_t,
-- uint32_t and int values wrap as on two's complement machines. An unordered map is an association
-- list, and loops over it go through an `Iteration`, any order in which every entry is visited;
-- theorems hold for every such order. Strings are native texts.
--
-- Bounds. The loops of the daemon are over lists. The console loop takes a bound on its iterations;
-- twice the number of characters on std::cin and two more are always enough, since an iteration that
-- goes on reads a character or meets the end of the input. Policies of at most 127 actions are the ones
-- whose size an int8_t holds; theorems that need this say so, and others say what happens beyond.
--
-- Outside the code. CommonAPI and the D-Bus daemon are the record `Platform` of Stub (whether a
-- connection is alive, the pid behind a name, the outcome of registering and subscribing), and the
-- reader of a message's strings is an argument.
--
-- Not modelled: what main, its console and the clients log; a read of the registry in the
-- middle of another thread's write (Threads takes the lookup without the mutex as one step); the
-- menu that the console prints; the clients' waiting and printing.
pub mod Base
pub mod States
pub mod Catalogue
pub mod Service
pub mod Scheduler
pub mod Wire
pub mod Stub
pub mod Daemon
pub mod Threads
pub mod Handlers
pub mod Logger
pub mod Journal
pub mod Clients
pub mod UnitTests
pub mod Console
mod Tests
