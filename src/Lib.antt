-- ===== src/Lib.antt =====
-- iot-drive: a network block device whose 12 MB are kept twice, in the files of three minions.
--
-- The program has two sides. NBDRead and NBDWrite of the block device are called by BUSE. The
-- master takes requests of the block device from a TCP socket (NBDProxy), runs a command for each
-- in a thread pool, which sends datagrams to one minion or two (MinionProxy, Raid01), and polls
-- for their answers with an AI function in the scheduler, while ResponseProxy takes the answers
-- in (ResponseManeger). A minion takes datagrams (MasterProxy), runs a command over its file, and
-- answers. All that goes over the wire are messages (message.cpp).
--
-- The modules, and what they model (paths from the root of the repository):
--   Shared            lists, Boolean tests, dictionaries and the outcomes of C++ code
--   Buffer            the pointer that ToBuffer and FromBuffer walk along, with its bounds
--   Message           include/message.hpp, src/message.cpp: ThreadSafeUID is `Uid` (Identity), the
--                     classes under AMessage are the constructors of `Msg`; to_buffer, from_buffer,
--                     get_buffer_size and supply_args are the virtual methods by clauses (Wire);
--                     calculate_checksum (Checksum); the layout apart from the code (Format)
--   Factory           include/factory.hpp
--   ArgsKey           include/argskey.hpp, src/argskey.cpp
--   Response          src/response_manger.cpp: the watchlist, and the set of answered keys
--   Raid              src/raid01.cpp: offset_to_proxy
--   Storage           bin_file and GetBinFile of src/command.cpp
--   Proxy             src/inputproxy.cpp: one child module for each proxy
--   Command           src/command.cpp and TPTask::Run of src/threadpool.cpp; the polls (Polling),
--                     requests at the same time (Interleaved), and two threads of a minion (Race)
--   Cluster           master and minions together; Session and Device state what the device
--                     promises, behind the commands and from NBDRead and NBDWrite on, over
--                     a network without loss; Network is one that loses, repeats and reorders
--                     the datagrams of writes
--   Queue             include/priority_queue.hpp
--   Scheduler         src/scheduler.cpp, src/ai.cpp
--   ThreadPool        src/threadpool.cpp
--   Nbd               NBDRead and NBDWrite of src/raz_nbd.cpp, and their requests at the master
--                     Options: the command line of src/raz_nbd.cpp
--   Singleton         include/singleton.hpp: double-checked locking, one access at a time
--   Dispatcher        include/dispatcher.hpp
--   Reactor           src/reactor.cpp: registration, Run, and FDListen
--   DirMonitor        src/dirmonitor.cpp: Monitor over the bytes that inotify gives (Layout, Events),
--                     and DLLLoader (Loader)
--   Socket            src/socket.cpp: which descriptors are opened and closed
--   Logger            src/logger.cpp
--   ErrorHandler      include/error_handler.hpp, src/error_handler.cpp
--   Examples          the theorems at concrete inputs
--
-- An `Outcome` is `ok`, `throws` (a C++ exception) or `fault` (undefined behaviour: an access
-- outside of an allocation, a null pointer). Machine numbers are natural numbers with the bounds
-- of their fields as hypotheses; the counter of the UIDs wraps at 2^32. Memory from `new` holds
-- anything: it is a parameter, of which only the length is known. Loops are recursion on lists or
-- numbers, without fuel, but for poll_until, which takes the number of polls: fifty are proved
-- enough; and for monitor_events, which takes as much as there are bytes: a round takes sixteen.
-- `debug` is a build without NDEBUG, in which CheckAndLog throws.
--
-- Concurrency: the scheduler is a step relation over all interleavings of its locked sections and of
-- the two accesses of SetTime outside of the lock; the thread pool is one over the calls of its
-- users, while its destructor adds its pills one by one; the singleton is a function of the schedule
-- of its threads, whose reads without the mutex may be old; requests at the same time, the network and
-- the log are functions of lists of events; two threads on one stream are an interleaving of their
-- calls. Where the source has no lock and none of these says otherwise, calls run one after the other:
-- those of the watchlist, the polls, and the commands of one minion. A write of the device is not
-- polled between its two answers; Command.LostAnswer is what happens if it is. A std::priority_queue
-- is the list of its items in the order of the pops.
--
-- The calls of the operating system and of the C library (inotify, dlopen, sockets) are
-- parameters, or the results that they give, in their documented form; strtoull is written out.
--
-- Not modelled: BUSE (src/buse.cpp, another project), src/framework.cpp and src/input_mediator.cpp,
-- which wire the parts, the largest datagram that UDP takes, signals, the timer calls, SQLite, and the
-- construction of the two programs from their parts.
mod Shared
pub mod Buffer
pub mod Message
pub mod Factory
pub mod ArgsKey
pub mod Response
pub mod Raid
pub mod Storage
pub mod Proxy
pub mod Command
pub mod Cluster
pub mod Queue
pub mod Scheduler
pub mod ThreadPool
pub mod Nbd
pub mod Singleton
pub mod DirMonitor
pub mod Dispatcher
pub mod Reactor
pub mod Socket
pub mod Logger
pub mod ErrorHandler
pub mod Examples
