-- ===== src/Lib.antt =====
-- Verification of tgserver, a socket server written in C that runs one process for each client.
--
-- The main process keeps a table of its clients (tg_context.c), hands each connection to a child
-- process and obeys the commands of an administrator (tg_process_admin.c). In the child, one
-- thread reads requests of the client and messages of the main process (tg_process_reader.c) and
-- puts them into a queue of events (tg_event.c); another takes them out and answers them
-- (tg_process_response.c) with the help of plugins, which stand in a table of services
-- (tg_service.c). tg_server.c and main.c read the arguments and the configuration, and load the
-- plugins; tg_util.c has the searches in strings that the others use, tg_log.c the log.
--
-- Files:
-- * Base and Base/: numbers, lists, the Boolean tests, and the parts of the C library that the
--   program calls (memcpy, strncmp, strcmp, strncpy, atoi), on lists of bytes.
-- * Util (tg_util.c): findSeparator, lastFindSeparator and getLibName are find_separator,
--   last_find_separator and get_lib_name. Proofs in Util/Search and Util/Fronts.
-- * Event (tg_event.c): the queue as nodes on a heap; pushEventToQueue, head, getQueueSize,
--   freeTGEvent and cancelAllEvent under their names. Event/Cells and Event/Refine relate it to
--   a list, Event/Flight has the node that head has given out.
-- * Context (tg_context.c, tg_context.h): Context/Globals has the structures and the global
--   variables, Context the operations on the table, Context/Signals the messages to the clients
--   and the list of the clients. Proofs in Context/Loops, Context/Table, Context/Counts and
--   Context/Signals/Lists.
-- * Reader (tg_process_reader.c): read_data_from_cli and read_data_from_main_process. Proofs in
--   Reader/Inputs, Frames, Outcomes, Total and Messages.
-- * Service (tg_service.c, tg_service.h): addService, findServiceI, findServiceN and
--   setServiceCreateParameters; in Service/Calls the calls of the plugins' functions, each known
--   by its address; in Service/Loading checkLib, loadService and unLoadService. Proofs in
--   Service/Table, Service/Parameters, Service/Loading/Loads and Service/Loading/Unloads.
-- * Response (tg_process_response.c): __check_request is check_request, the handlers have their
--   names. Proofs in Response/Requests and Response/Outcomes; Response/Contracts says what the
--   server asks of a plugin (tg_service.h).
-- * Admin (tg_process_admin.c): write_data. Proofs in Admin/Commands.
-- * Process (tg_process.c): do_accept in both processes, __handle_child_quit_signal,
--   __handle_host_shutdown_signal and do_admin. Process/Clients has what do_accept and
--   the handler of SIGCHLD do to the table, Process/Shutdown the child and the shutdown, Process/Threads
--   a round of the thread that answers (__deamon_response). Process/Interleaving has
--   __do_request and the turns of the two threads of a client process: read_client and read_main
--   are the two tests of __deamon_read, take_event and answer_event the parts of
--   __deamon_response under the lock and behind it, and Step takes a turn of either. Proofs in
--   its Sound, Orders, Progress, Serves and Farewell. Process/Interleaving/Schedules has the
--   loops of the two threads, run by a schedule (deamon_read is a round of __deamon_read);
--   proofs in its Rounds. Process/Interrupted has do_accept with the handler of SIGCHLD in the
--   middle of it; proofs in its Reaping, Counting,
--   Ghosts and Drift. Process/Ends follows a shutdown from the
--   main process into a client process. Process/Listening has socket_w, bind_w, listen_w,
--   open_admin_pipe and the rounds of the loop of startListen; proofs in its Rounds.
-- * Server (tg_server.c): __parse_parameter, and the body of the loop of __read_conf_file as
--   read_conf_line; in Server/Plugins the arguments that init_plugin reads; in Server/Startup
--   __load_services, init_context and main (main.c). Proofs in Server/Lines,
--   Server/Startup/Arguments and Server/Startup/Directories; Server/Startup/Boots follows the
--   program from main to the answer of a request.
-- * Log (tg_log.c): __log as log, logN to logE as log_n to log_e, and logM as log_m. Proofs in
--   Log/Lines and Log/Dumps.
-- * Demo (plugins/demo/demo.c): initPoint as init_point, and do_request; in Demo/Memories
--   create, init, initLine, release and destroy on the shared memories of the kernel, and
--   request, which is do_request on them. Proofs in Demo/Points, Demo/Answers and Demo/Lives;
--   Demo/Served follows a request for the points through a client process.
-- * Demo1 (plugins/demo1): the constructors of PPoint and PLine, ShmHeader, and the functions of
--   demo1.cpp; request is do_request behind g_header. Proofs in Demo1/Answers
--   and Demo1/Breaches.
-- * Demo2 (plugins/demo2/demo2.cpp): its functions. What a client gets from it is in
--   Demo2/Silence.
-- The files named Tests apply the theorems at concrete inputs and run the functions.
--
-- How C is modelled. What C leaves undefined (an access outside an array, through NULL or through
-- a pointer that was never set, a signed overflow) is the value `fault` of Run, and what follows it does not run. malloc succeeds, but
-- in appendGServiceArrayCount, where the source tests it. Calls on descriptors are values, in
-- their order: Action for write, close and shutdown, Call for the functions of a plugin, Effect
-- for both. What a descriptor delivers is a list of inputs, one for each read that finds data; a
-- read takes what it has room for. A function that reads memory it does not own (the byte in
-- front of a string, the stack behind an array) has that memory as an argument. Numbers that the
-- program never makes negative are natural numbers, the others are signed; the length of a frame
-- is read and written as 32 bits. The Linux branch of every #ifdef is modelled. The calls of the
-- log in the other parts are left out. What code outside the repository gives is a parameter:
-- dlopen and dlsym (Linker), getenv, opendir and fopen (Host), the functions of a plugin, and
-- the system calls on sockets, pipes and processes.
--
-- Fuel: the loop of read_data_from_cli that waits for the rest of a request, and the loop of
-- cancelAllEvent, are on fuel, and `fault` where it runs out. One round more than the inputs, or
-- than the events, is enough, as the theorems on these functions have it.
--
-- The handlers of signals run between the other operations, not inside of them, but in
-- Process/Interrupted, where the handler of SIGCHLD runs within do_accept, at two points. The
-- two threads of a client process are interleaved at the points where neither has the lock; a
-- handler of an event runs as one step, since it does not touch the queue. pthread_cond_wait
-- gives up the lock and waits in one step, and may return without a signal.
--
-- __check_request copies the name into an array that is declared for five bytes less than the name
-- has. What the compiler keeps on the stack for such an array is a parameter (NameArray): the copy
-- is a fault where it leaves that room, and always is where no more is kept than declared, as C
-- has it. The theorems on answers say how much room they need; whole blocks of 16 bytes, which gcc
-- keeps on x86-64, are enough for names of 6 to 16 bytes. size+1 of read_data_from_cli overflows
-- for the length 2 ^ 31 - 1, and atoi is undefined for a number that no int holds: both are faults.
--
-- Departures: setClient writes a byte behind its buffer; the model leaves this out. The freeing of
-- memory is modelled for the events and for unLoadService
-- only. setenv is left out.
--
-- Not modelled: the threads that init_plugin and __do_request start are taken as started; the
-- calls of shmctl with IPC_STAT in plugins/demo, whose result is not used; and the copy of
-- libspatialindex under plugins/gis-service, which is code of others that the server never
-- calls.
pub mod Base
pub mod Util
pub mod Event
pub mod Context
pub mod Reader
pub mod Service
pub mod Response
pub mod Admin
pub mod Process
pub mod Log
pub mod Demo
pub mod Demo1
pub mod Demo2
pub mod Server
