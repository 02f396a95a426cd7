-- ===== src/Lib.antt =====
-- A verification library for the chat program of this repository: a peer-to-peer chat in C, in
-- which every host keeps a table of the hosts it knows, with the next hop and the number of hops to
-- each, tells it to its direct neighbours, and forwards the messages that are for others.
--
-- The parts of the program, by their files:
--   src/protocol_header.c, .h  Names. The header of a message and its names, each 32 bytes with the
--                              string at the right end (getName, setName), and msglen, which counts
--                              up to the EOT. A byte is a number below 256, an array a list of them.
--   src/queue.c, .h            Queue. push and pop of both queues, of at most 100 messages.
--   src/routingTable.c, .h     Table. `Slot` is a place of routingTable together with its place of
--                              reachbleTable, `Table` all 100 of them with freeEntries and tableLock.
--                              Table.Update has the loop of tableUpdate, Table.Delete that of
--                              deleteFromTable, Table.Export tableToCharArray, Table.Print
--                              printRoutingTable, Table.Wire the 80 bytes of a record, Table.Start
--                              the table before main.
--                              What needs more of a host than its table is in Node: deleteFromTable,
--                              cleanUp, tableUpdate, getHopsOneAway.
--   src/protocol.c, .h         Protocol: do_chat, do_login, do_logout, forward,
--                              send_to_all_neighboors; Protocol.Receive: protocol_handle_msg and the
--                              handlers; Series: the list of targets with an open series.
--   src/sender.c, .h           Connections. The sockets by address and port, get_con, remove_con,
--                              remove_con_fd and sender_loop. CLIENT_connect_to is the parameter
--                              `dial`, and write another.
--   src/heartBeat.c, .h        Heartbeat. A round of heartBeatFunction, cut at its sleeps, and
--                              receiveHeartbeatResponse.
--   src/tcp_con.c, .h          Tcp. send_tcp and read_tcp; the calls write and read are parameters.
--                              Tcp.Sockets: CLIENT_connect_to, SERVER_listen_on and close_tcp, with
--                              the calls that they make; which of them succeed is a parameter.
--   src/server.c               Server. server_loop over the events that epoll_wait returned; an event
--                              brings along what accept and read will return for it.
--   src/ui.c, .h               Ui. The tabs, the line that is typed and the answer to a key (`turn`);
--                              Ui.Lines: the lines of a message on the screen; Ui.Draw: what redraw
--                              writes to the terminal; Ui.Loop: start_ui and its loop; Ui.Terminal:
--                              the mode and the size of the terminal, read_key, the signals, and
--                              cleanup at the exit; Ui.Unused: add_message, which nothing calls.
--   test.c, testTable.c        TestName, TestTable. Two programs apart from the chat: an earlier getName,
--                              and an earlier routing table of five entries with the message that it
--                              is tried with. They stand on Table.Wire for the bytes of a record.
--   src/main.c                 Main. parse_host_port, parse_args over the results of getopt, and main
--                              up to start_sender, and the login behind it.
--
-- The state of a host is `Node`: the own name, the table, the two queues, the connections, the list
-- of series and the neighbours that the heartbeat watches. A function of the program is a function
-- from `Node` to `Node`, or to an `Option`, where `none` is undefined behaviour, a read through a
-- null pointer or past the end of an array, or a loop that does not end. Base has the C strings and
-- arrays. The other modules hold theorems, by what they are about: Table.Lookup reads the table as
-- a partial function from names to entries, in which the first entry with a name counts, and
-- Table.Relax, Table.Capacity and Table.Forget say what the operations do to that function.
-- Table.Invariant has the invariant of the table. Protocol.Join, Protocol.Welcome, Protocol.Spread,
-- Protocol.Answer and Protocol.Handshake follow a host that joins: its LOGIN message, the answer,
-- the table in that answer, and the whole of it; Protocol.Each has who gets a message for all
-- direct neighbours; Protocol.Leave and Protocol.Logout follow a host that leaves; Protocol.Relay
-- follows a chat line; Node.Heard and Node.Fresh say when cleanUp leaves the routes alone. Examples
-- has concrete hosts and messages.
--
-- The parts interact through the host: the server's thread treats a message, which changes the
-- table and queues answers; the sender's thread takes them from the queue and opens connections;
-- the heartbeat's thread removes silent neighbours; the user interface takes texts from the other
-- queue and queues chat messages. Host.Steps has these as a step relation, in which each thread
-- does one of its functions at a time, in any order, from the host with which main starts the first
-- of them, the login of main's own thread among them; Host has the invariant of a host (`IsHost`);
-- Host.Tables, Host.Updates, Host.Messages and Host.Beats have that every function keeps it.
-- Table.Front has that entries stay in the first ten places. Routes is the abstract view: a partial
-- function from names to entries that changes by learning a name, by a way that is not longer, or
-- by the loss of a name and all ways over it, each only for certain causes. A function that does
-- not hold one mutex from its first line to its last may be interleaved with others more finely
-- than the steps are; such interleavings are not covered.
--
-- Bounds. A loop of the C code goes over sizeof(routingTable) / 80 places; a pointer has 8 bytes,
-- so these are 10 of the 100 (`scanned`). The recursions run on the number of rounds that the C
-- loop has at most: 10 or 100 places, 32 bytes of a name, 1499 bytes of a message (the limit of
-- msglen, behind which it stops), 50 users of a heartbeat, the messages in a queue, the bytes of a
-- text, ten digits of an int. None is an artificial limit, but for send_tcp, which gets the number
-- of writes that it may make: with fewer than it needs it is `none`, and one for each byte and the
-- EOT is enough. Addresses keep 32 bits, ports 16, getRouting's value 64, and a hop count wraps at
-- 2 ^ 32.
--
-- The arrays charName and charName2 of tableUpdate are not initialised; their old contents are the
-- parameters `junk` and `junk'`, for every round one each, of which nothing is assumed but, in
-- places, the length. tableLock is a flag with a count of the unlocks that found it free. The
-- mutexes of the queues, of the connections and of the users are held through each function, so a
-- function is one step there.
--
-- Not modelled: a signal within a round of the user interface; the texts to stderr; the functions
-- that only start or stop a thread; what test.c and testTable.c print on the way. The system calls
-- of src/ui.c are parameters: what ioctl, select and read give. A message that the screen cannot
-- show is `none`: with less than three columns the loop of draw_message does not end, and with more
-- than 1025 a row can be longer than its array of 1024 bytes. inet_addr, inet_aton and getopt are
-- not part of the sources: what they return is given.
pub mod Base
pub mod Connections
pub mod Examples
pub mod Heartbeat
pub mod Host
pub mod Main
pub mod Names
pub mod Node
pub mod Protocol
pub mod Queue
pub mod Routes
pub mod Series
pub mod Server
pub mod Table
pub mod Tcp
pub mod TestName
pub mod TestTable
pub mod Ui
