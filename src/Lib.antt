-- ===== src/Lib.antt =====
-- Verification library of the practice repository: models of its C programs and their theorems.
--
-- Parts, and the code they are about (paths from the repository's root):
--   Base       shared names; lists (Base/Lists), tests (Base/Branching), C strings as lists of bytes
--              (Base/Strings), the arrays that hold them (Base/Arrays), numbers in memory and on the
--              wire (Base/Words), and `%d` (Base/Decimal).
--   Resources  what programs take from the system and give back, with the lemmas on clean-up that
--              Copier, MqChat and Devices share.
--   Copier     module3/task01: the loop from one descriptor to another (Loops), parent and child of
--              copier.c (Processes), `copy_file` (Copy), its result (Delivery), its clean-up
--              (Release, ReleaseChild), and main.c (Args).
--   Broker     module3/task02: the message broker (broker.c) and, in Broker/Clients, the texts that
--              publisher.c and subscriber.c send it. Registry has the tables, Routing the
--              deliveries, Protocol what the broker makes of the clients' texts, Refinement the broker
--              as a set of subscriptions, Programs the run of a subscriber and the options of
--              main.c, Leaving what a subscriber leaves behind, and Startup the queue (common.c) and
--              the programs from main.c on.
--   MqChat     module3/task03: the queues of a session (Queues), the two threads and main.c (Talk),
--              the typed lines as messages (Session), their
--              way through the queue to the other side (Delivery) and what is left behind (Cleanup).
--   Shm        module3/task04 and module3/task05: a producer and consumers over shared memory.
--              Shm.antt has the critical sections (`generate` is a round of run_generation_loop,
--              `consume` one of run_consumer_loop, `poll_processed` one of wait_for_processing);
--              Chain the layout of the blocks, Run all interleavings, Loop the whole generation,
--              Draining a consumer's whole loop, Programs what the mains share, SysV and Posix the
--              programs of the two directories.
--   TcpChat    module3/task07: read_all and write_all (Io), packets as bytes (Wire)
--              and in a stream (Stream), the
--              server's table and event loop (Server), also up to the order of the table
--              (Server/Table), the client's packets and the transfer of files (Client, Transfer), the
--              way of a packet from client to server to client (Delivery) and of a whole connection
--              (Broadcast), the client's loop and main (Session), what one user types as
--              another sees it (Conversation), the set-up and end of both programs (Startup).
--   UdpChat    module3/task06: the packet (Packet), the handlers and loop of chat.c and main.c (Chat),
--              a packet from one program to another (Delivery), a whole session (Session), what one
--              user types as another program shows it (Conversation), its socket (Startup).
--   Sniffer    module3/task08: parsing of packet_processor.c (Parse) and its bounds (Bounds), the log
--              (Log), the capture of a packet of UdpChat (Capture), main.c and sniffer.c (Main), and
--              what is left behind (Cleanup).
--   RawUdp     module3/task09: packets and checksum (Packet, Checksum), the server's table (Clients) and
--              handler of a frame with the client's wait for the reply (Server), and the way from the
--              client to the server and back (Echo), client_main.c (Client) and server_main.c (Loop); the
--              room in the table (Room), the server as counts of its clients (Counting), and the sockets of
--              both (Startup).
--   Taxi       module3/task10: the drivers with their timers (Driver, Timing) and the dispatcher
--              (Dispatcher), from a command to the line on the terminal (Commands), and the dispatcher with
--              a driver and the FIFOs between them (Requests, Answers).
--   Blacklist  module5/task6: the netfilter module (Hook), its list (Rules), the texts written to and
--              read from its file (Commands), and any history of commands (History).
--   Devices    kernel modules: module5/task2 (Proc) and module5/task4 (Chardev) keep a text, module5/task3
--              (Leds) blinks the lights of the keyboard, module5/task5 (Netlink) answers a message;
--              Loading has the loading of the first two.
--
-- Conventions. A function that changes state returns the new state; what it does to the outside
-- is a list of effects. What the system answers (results of calls, the order of events) is an
-- argument, usually a list of events. Terminal output is left out, except in the chats and the
-- sniffer, which are there to show something. A pid is its 32-bit pattern.
-- A C string is the list of its bytes without the terminator.
--
-- Bounds and fuel. `Shm.find_block` takes one round for each byte of the segment and one more;
-- a block has at least 16 bytes, so a chain never uses them up (`Shm.Find`). `Shm.Loop` runs the
-- generation with one round for each free byte and one more, and proves that it ends before;
-- `Shm.Draining` runs a consumer with one round for each byte in use, and proves the same.
-- `TcpChat.Client.read_chunks` takes one round for each byte of the file. `show` writes ten digits,
-- enough below 2^32. `RawUdp.Server.wait_for_server_reply` has the code's five retries as its fuel;
-- `Devices.Chardev.read_whole`, a program that reads the device to its end, takes one call for each
-- byte of the text and one more.
--
-- `Copier`, `UdpChat`, `Sniffer` and `MqChat` need no fuel: their loops run over the list of answers,
-- and a result says whether the loop has ended when the list is used up.
--
-- Not modelled: options of sockets, signal set-up (signals are events), and most of what only prints;
-- a write to a FIFO of Taxi and `malloc` in RawUdp are taken to succeed, and the semaphores of Shm make
-- each critical section one step. What ends a program from outside is left out, as SIGPIPE at a write to a
-- closed peer of TcpChat; and so is the removal of an old segment and semaphore at the start of
-- module3/task04. The main program of module3/task10 only removes old pipes and starts
-- the loop that is modelled; module5/task1 only prints. The test programs of the repository implement
-- nothing.
pub mod Base
pub mod Broker
pub mod Shm
pub mod TcpChat
pub mod RawUdp
pub mod Blacklist
pub mod Taxi
pub mod UdpChat
pub mod Sniffer
pub mod Devices
pub mod Resources
pub mod Copier
pub mod MqChat
