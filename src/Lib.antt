-- ===== src/Lib.antt =====
-- A lightweight message queue server in Python: producers send messages to queues and publish them
-- to topics over a text protocol, consumers take them and acknowledge them, and messages that are
-- not acknowledged in time, or that have outlived their TTL, end in a dead letter queue.
--
-- The parts, and the files that model them:
-- - src/models.py: Models, with Models/Ids. The message and its states. A message object is mutable
--   and shared by the router and the ack manager, so it stands in a heap, a function from references
--   to messages.
-- - src/protocol.py: Protocol, with Protocol/Parse. `parse_command` and the encoders of answers.
-- - src/queue_manager.py: Queues, with Queues/Steps, Queues/Invariant and Queues/Fifo. Queues/Spec is
--   an abstract queue server, and Queues/Refine relates the manager to it.
-- - src/topic_manager.py: Topics, with Topics/Steps, Topics/Invariant and Topics/Subscribers.
-- - src/consumer_group.py: Groups, with Groups/Steps, Groups/RoundRobin,
--   Groups/Heartbeats and Groups/Invariant.
-- - src/ack_manager.py: Acks, with Acks/Nack, Acks/Rules, Acks/Timeouts, Acks/Ttl, Acks/Replay,
--   Acks/Registry and Acks/Sound. The manager is explicit about its lock, which is not reentrant: to ask for it while it
--   is held is the outcome `deadlock`.
-- - src/message_router.py: Router, with Router/Sends, Router/Polling, Router/Delivery,
--   Router/TopicReads, Router/Offsets and Router/Sound. The router calls the queue manager and the
--   topic manager, which are fields of its state.
-- - src/persistence.py: Persistence. Persistence/Struct is what the code uses of Python's `struct`;
--   Persistence/Codec is `serialize` and `deserialize`; Persistence/Segments is `SegmentManager`, with
--   Segments/Names and Segments/Numbered; Persistence/Log is `IndexManager` and `PersistenceLayer`,
--   with Log/Stored, Log/Appends, Log/Recovery, Log/Kept, Log/Durable and Log/Reopen. The data
--   directory is a dictionary from file names to bytes.
-- - src/server.py: Server is the state and how a handler calls the parts; Server/Admin,
--   Server/Messages and Server/Upkeep are the handlers, the checker and the start; Server/Dispatch is
--   `_dispatch`. Server/Nacks, Server/Restart and Server/Pings are about single handlers, Server/Sound
--   is about the state that all of them share. Server/Connection is `_handle_client`: the chunks of
--   bytes that a socket gives, the buffer, the lines in it, the answers, and what is cleaned up when a
--   client is gone.
-- - client.py: Client, with Client/Help, Client/Answers and Client/Exchange. The socket is the list
--   of the chunks that `recv` returns; the terminal is the list of the lines that are typed and of
--   those that are printed.
-- - Base, Text, Dict and Members model what the code uses of Python itself: exceptions with the state
--   that they leave (Base/Action, Base/Keeps), lists, `str` (with UTF-8 and its errors="replace" in
--   Text/Replace, and the lines of a buffer in Text/Lines), `dict` and `set`. Tests holds small runs.
--
-- A method becomes a function of the same name into `Action`, from a state to an outcome and the
-- state after it; what was written before a raise stays written. A method that runs under the lock
-- of its manager is one step, and the properties of a manager hold for every sequence of such steps.
-- Exceptions are constructors; where the code makes a text of one, `describe` does.
--
-- Times are whole microseconds and arguments. The polling loop of `consume_from_queue` runs over a
-- list of turns, each with the clock and with what other threads do before the next turn; the outcome
-- `polling` says that the list ended first. The scan of a segment runs on fuel, the length of the file
-- and one more, which is enough because each round takes four bytes at least. The loop over the
-- lines of a buffer runs on the length of the buffer, which is enough because each line takes the two
-- characters of its end with it. The lengths of the texts and of a record, and the numbers of a
-- message, are checked against the widths of the format.
--
-- Not modelled: src/main.py, which reads options and starts the server; logging; of src/server.py the
-- accept loop, the threads and the listening socket, so that of `stop` only the closing of the log
-- stands here, and a `sendall` that fails; of src/persistence.py a write, a flush or another call of
-- the file system that fails; in client.py an interrupt from the keyboard. A handler of the server is
-- one step, though the code lets other threads act between the calls of a handler, and the clock
-- stands still in it. A chunk of a connection may be longer than the 4096 bytes that `recv` gives.
-- `str.encode` is total here, though Python raises `UnicodeEncodeError` at a lone surrogate: no text
-- that the server decodes from a connection has one, and the theorems about stored texts ask for
-- none. `int` reads the digits of ASCII only, though Python takes other decimal digits too.
-- `str.upper` outside ASCII is modelled only where it gives ASCII; the text of an exception that is
-- answered as ERR_INTERNAL, and that of a failed `int`, are arguments. A set that the code never
-- orders is a list in which no element stands twice. Times with a part of a microsecond are not
-- modelled.
pub mod Acks
pub mod Base
pub mod Client
pub mod Dict
pub mod Groups
pub mod Members
pub mod Models
pub mod Persistence
pub mod Protocol
pub mod Queues
pub mod Router
pub mod Server
pub mod Tests
pub mod Text
pub mod Topics
