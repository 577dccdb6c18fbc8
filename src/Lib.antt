-- ===== src/Lib.antt =====
-- A simulation of airlines that carry medicines to cities. One process owns the map and plays the
-- turns; each airline is a process with a thread for each of its planes.
--
-- The parts, and the files that model them (paths are from the root of the repository):
--   Comm           the messages of src/communication/types.h, src/communication/msgqueue.h and
--                  src/marshall/*.h
--   MessageQueue   src/communication/msgqueue.c
--   Models         src/models/: products, stocks, cities and the map
--   Marshall       src/marshall/*.c
--   Simulation     src/app/map.c, with src/communication/map.c: Receive is initPlane, Unload is
--                  updateMap, Status is endSimulation and get_map_status, Destinations and Offer are
--                  app_give_destinations, Turn is runMap
--   Routes         src/parser.c: floydMatrix, which fills the matrix of the distances
--   Parser         src/parser.c: parseAirlines (Airlines) and parseMap (Maps), at a file as the list of
--                  its bytes, and the texts of such files (Scanning, Stocks, Fleet, Cities, Links,
--                  World, Wayless)
--   Vector         src/utils/vector.c
--   Airline        src/app/airline.c and src/communication/airline.c: a stage that the map starts goes
--                  to the queues of the planes, and one answer goes back (Stage, Broadcast); the
--                  process with the threads of its planes, as the steps of a relation up to the end
--                  message (System, Fits, Moves, Sends, Counts, Delivery, Kept, Rests, Progress), and
--                  its end (Ending)
--   Plane          src/app/plane.c and src/communication/plane.c: the thread of a plane, which reads
--                  its queue, asks the map and reports itself to the airline (Flight,
--                  and with the map Unloading)
--   Shmem          src/ipc/shmem.c: the queue in shared memory, which carries the messages between the
--                  processes; a step of a process is a step of a relation (Order). Setup is how they
--                  find the memory and who sets it up (Guard, Turns, Once, Known, Held, Others, Failure,
--                  Stuck);
--                  Removal is ipc_end and ipc_close, and what calls do then (Unguarded)
--   Pipe           src/ipc/fifo.c: the same messages over a named pipe, a list of bytes
--   PosixQueue     src/ipc/mqueue.c: the same over a message queue of the system (Failure)
--   Display        src/app/output.c: the lines it writes (Lines); its queue and semaphore, with the
--                  map at their other end (System, Pace, Liveness)
--   Socket         src/ipc/socket.c: the same over datagram sockets, with the calls of the system that
--                  are tried again (Refine)
--   Sem            src/utils/sem.c: ipc_sem_create, which searches for a free key (Fresh), and what waits
--                  and posts do to a value (Balance, Values)
--   Log            src/util.c: mprintf of many threads at one log, as the steps of a relation (Whole)
--   Start          src/app/main.c: the configuration folder (Folder), and the map that is read of it as
--                  runMap takes it, with its distances (World, Ways); the names under which the
--                  processes listen and connect (Names, Digits, Meet)
--   Tests          runs on small inputs, and the theorems at them
--
-- Conventions. An `int` that may be negative is a ℤ, any other number an ℕ; overflow of `int` is not
-- modelled. A vector is a list, except in Vector. A function of the source that may go through a null
-- pointer or outside of an array returns an Option. Memory allocation succeeds, and what is written to
-- the log is left out. What the airlines send is an argument, a list of messages in the order of their
-- arrival; so is what the exit flag of the signal handler reads. `qsort` is a parameter with its
-- documented laws. What `message_queue_peek` sees before an action of a plane is an argument too.
--
-- Not modelled: the signals, the calls that start and join the processes and threads or open and remove
-- files, sockets and queues (but for the shared memory of Shmem), and what frees memory, as the end of
-- message_queue_destroy does. These parts of
-- the program only call the operating system and have no logic of their own.
--
-- Fuel. `runMap` runs on fuel for 70000 turns and one more test, which is what `endSimulation` allows.
-- The loops of the parser run on fuel for the bytes of the file that are left and one more, since each
-- round of them reads a word. The search for the key of a semaphore runs on fuel for the sets in the
-- system and one more, since each round of it meets another set. The digits of a number run on fuel for the
-- number and one more, since each is of a smaller number.
pub mod Base
pub mod Vector
pub mod Comm
pub mod MessageQueue
pub mod Models
pub mod Marshall
pub mod Routes
pub mod Simulation
pub mod Shmem
pub mod Airline
pub mod Plane
pub mod Tests
pub mod Display
pub mod Log
pub mod Parser
pub mod Pipe
pub mod PosixQueue
pub mod Sem
pub mod Socket
pub mod Start
