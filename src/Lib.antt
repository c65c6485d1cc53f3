-- ===== src/Lib.antt =====
-- AIOTC, a controller for cameras and their tasks: the queues, the frame buffers, the message keys,
-- the master's tables and threads, and the HTTP requests of master and slave, with the laws that make
-- them correct.
--
-- The program. A master (src/master.cpp) keeps a table of slave nodes and a queue of objects
-- (cameras). One of its threads polls the slaves, another gives each object to a slave. A slave runs
-- processes (src/pids.cpp) that read and write frames in shared memory (src/shm.cpp) and talk over
-- System V messages, whose keys it hands out. Objects are added and deleted by src/misc.cpp. Both
-- serve HTTP requests (src/rest.cpp); the master writes its own to a database, from which it starts
-- again, and forwards those about an object's tasks to the object's slave. All of them stand on the
-- linked queue, the sockets and the JSON getters of work/share/src/share.cpp.
--
-- The files.
--   Prelude, with Tests, Lists and Int: names shared by all, numbers, lists, and C's `int` as an
--     unbounded integer. Cstring: C strings as lists of bytes.
--   Slab: the allocator behind shmMalloc and shmFree (work/slab, third-party code), as a parameter
--     with the laws of the set of blocks that are handed out.
--   Queue: the functions on queue_common of work/share/src/share.cpp (putToShmQueue is
--     put_to_shm_queue, and so on). A queue is the list of its nodes from `head` to `tail`, each with
--     its block's address, and its counters. Queue/Puts, Length, Delete, Users, Blocks: the laws.
--   Queue/Chain: the same functions over a memory with the pointers head, tail and next.
--     Queue/Chain/Segments, Unlink, Links, Ops, Walks, Uses, Runs: what the pointers stand for.
--   Sockets: blockSend and blockRecv, over the answers of select, send and recv. Sockets/Ends: the
--     laws.
--   Json: the getters of work/share/src/share.cpp. cJSON, malloc and the files are a parameter, the
--     record Host. Json/Buffers: the laws.
--   Shm: the frame buffers of src/shm.cpp, each a pool, a memory from addresses to contents, and a
--     queue of frames. Shm/Copies, Owned, Frames, Free, Layout: the laws; Layout also models
--     initShmArray and the size that shmInit asks for.
--   Slaves: the table of slave nodes of src/master.cpp. Slaves/Choice, Storage: the laws.
--   Keys: the message keys of src/pids.cpp. Keys/Search, Distinct, Store, Fresh, Runs: the laws.
--   Obj: the objects and tasks of inc/obj.h and inc/task.h, and addObj and delObj of src/misc.cpp;
--     Obj/Algs: addAlg, delAlg and systemInits. Obj/Adds, Undo, Starts: the laws.
--   Master: mobjManager and detachSlave of src/master.cpp. Master/Assign, Detach: the laws.
--     Master/Locks: slave_load_thread and master_objmanager_thread as steps between their calls of
--     semWait and semPost; Master/Deadlock: the laws.
--   Rest, with Rest/Handlers: the handlers of rest_url_map of src/rest.cpp (request_obj_add and so
--     on), on the slave's state; Rest/Body: how request_cb reads a request's body. Rest/Counts, Load:
--     the laws.
--   MasterRest, with MasterRest/Handlers: the handlers of master_url_map of src/master.cpp
--     (master_request_obj_add is request_obj_add there), with what they POST and ask of the database;
--     MasterRest/Init: initMasterFromDB. MasterRest/Changes, Forward: the laws, also those
--     between master and slave.
--   Pids: the process table of src/pids.cpp and the objects of a process (putObj2pidQue,
--     getEmptyProc, createProcess, creatProcByPid). Pids/Load, Table, Written, Again: the laws.
--   Capture: gat1400_capture_callback of src/gat1400/gat1400.cpp up to makeJson; Capture/Document: makeJson
--     of src/work.cpp. Capture/Urls: the laws on the files and the URLs.
--   Work: copyToMqQueue and the rounds of output_thread of src/work.cpp; Work/Broker: mqOpen, and
--     initMqParams and mqOpenConnect of src/mq.cpp. Work/Queued, Rounds, Copied, Output: the laws.
--   Hls: delOldTs of src/preview/hls.cpp. Hls/Window: the laws.
--   Preview: allocVideoShm of src/misc.cpp, preview_start, initPreviewOps and preview_stop of
--     src/preview/preview.cpp, the threads of src/preview/hls.cpp and httpflv.cpp around
--     previewLoop, and the reads of read_video_packet of src/preview/ffmpeg.cpp. Preview/Reads, Life, Steps, Shared: the laws.
--   Ipc: clearSystemIpc, dealBuffer and checkMsgKey of src/misc.cpp. Ipc/Strings, Words: the laws.
--   Config: configInit and dbInit of src/db.cpp. Config/Ports: getNginxPort and initHttpPort, over the
--     texts of the files. Config/Uri, Config/Ports/Texts, Reads: the laws.
--   Messages: msgSend, msgTask and the loop of msgThread of src/msg.cpp, over the answers of msgget,
--     msgsnd, msgrcv and malloc. Messages/Sends, Answers, Trip: the laws.
--   Beats: the beat functions of src/rtsp/rtsp.cpp, src/preview/preview.cpp and
--     src/gat1400/gat1400.cpp, and objManager of src/main.cpp. Beats/Protocol: the laws.
--   Examples: an allocator and a JSON library as concrete functions, and each law at an input.
--
-- How the code is read. State is passed in and out; each function is one critical section, and the
-- semaphores are left out. A condition callback is a Boolean test of a node. `x->arg` and the blocks
-- behind it are addresses. Where the code returns -1 or NULL the model does, as a value. Sizes and
-- counters are natural numbers, which stand for `int` as long as no value reaches 2 ^ 31; a count
-- that the code sets back to 0 when it falls below 0 is a subtraction that stops at 0.
--
-- Fuel. The loops over the pointers of a queue take one round for each node: the limit on the queue's
-- length is enough. blockSend and blockRecv take one round for each timeout that they allow and one
-- for each byte at most. The loop of request_cb takes a byte at least in a round: the length of the
-- body is enough. msgSend counts its rounds down. printf takes ten digits at most for an `int`. All other loops follow
-- a list or count down.
--
-- Not modelled: the HTTP server and client (libevent), the database (MongoDB), the broker (RabbitMQ),
-- ffmpeg and the vendors' protocols, which are calls of other code; what the kernel
-- does with a message queue, but for the size of a message; semaphores and the interleaving of threads,
-- but for the two threads of Master/Locks.
pub mod Prelude
pub mod Cstring
pub mod Slab
pub mod Queue
pub mod Json
pub mod Config
pub mod Shm
pub mod Slaves
pub mod Keys
pub mod Ipc
pub mod Obj
pub mod Master
pub mod Messages
pub mod Pids
pub mod Beats
pub mod Sockets
pub mod Work
pub mod Rest
pub mod Capture
pub mod Hls
pub mod Preview
pub mod MasterRest
pub mod Examples
