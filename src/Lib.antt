-- ===== src/Lib.antt =====
-- Verification of privsep-rs, a library for privilege-separated programs: a parent process forks
-- children that talk to each other over UNIX sockets. Every process holds message handlers; a
-- handler sends a fixed header, a serialized payload and at most one file descriptor, which travels
-- in a control message next to the bytes.
--
-- The parts, from the bottom:
--
-- Memory is bytes in memory. Memory/Bytes has layouts of `repr(C)` values and the accesses through
-- a raw pointer, as offsets into a byte list; Memory/Ints has integers of a fixed number of bytes
-- in either byte order; Memory/Splice has the laws of reads and writes at a seam.
--
-- Ancillary models privsep/src/net/ancillary.rs. The record SocketAncillary is the struct; add_fds,
-- add_creds, messages, clear and the rest are its methods; add_to_ancillary_data is the function of
-- that name, its `while` loop over the headers is `walk`, `next_message` is Messages::next,
-- `next_unit` is AncillaryDataIter::next. Ancillary/Cmsg has what the file uses of libc, as a
-- parameter with laws; Ancillary/Linux is an instance. Ancillary/Encoding describes the bytes of a
-- list of control messages; Walk, Write, Append, Stored, RoundTrip, Units, Operations and Loops are
-- about the code against that description.
--
-- Stream models privsep/src/net/stream.rs, and recv_vectored_with_ancillary_from and
-- send_vectored_with_ancillary_to of ancillary.rs. The kernel is a list of events that the calls
-- consume; Stream/Events reads such a list as a byte stream; Stream/Std has the trait
-- StdUnixStreamExt.
--
-- Imsg models privsep/src/imsg.rs. Imsg/Header has Message, Imsg/Send has Handler::send_message and
-- send_message_internal, Imsg/Recv has Handler::recv_message. A call is a function from the handler
-- and the events to its result, what it put on the socket or left in the read buffer, and the
-- events left. Framing, Arrivals has the descriptors that come to a receive, by the bytes of their
-- control messages. EndOfFile, Receiving, Descriptors, Progress, OneRead, Malformed and, for a call
-- that is dropped while it waits, Cancelled are about receiving, Sending, Writes and Bounds about
-- sending, EndToEnd, Transfer and Live about both ends. Imsg/Queue has a step relation on the two
-- ends and the bytes between them, and the queue that they are meant to be; Imsg/Simulation and
-- Imsg/Fifo are the refinement. Imsg/Sockets has Handler::pair, socketpair, from_raw_fd and
-- shutdown over the descriptors of the kernel.
--
-- Fd models privsep/src/net/fd.rs. The kernel's descriptors are the parameter Kernel with the laws
-- IsKernel of the manual pages; Fd/Table is an instance, Fd/Ownership is about duplicate, is_open
-- and the drop.
--
-- Process models privsep/src/process.rs. Process/Connect has Parent::connect, Process/Handshake the
-- wait for peers in Child::new, over sets of ids in Process/Sets; Process/Inbox is about what one
-- child is sent, Process/Startup about both together. Process/Parent has Parent::new (Process/Forks
-- is about it), Process/Privdrop the privilege drop of Child::new on each system (Process/UserLast
-- is about its order), Process/Child Child::new as a whole and set_cloexec, with what was done as a
-- list of actions (Process/ChildOrder is about it), and Process/Shutdown Child::shutdown. There the
-- system calls are records of answers. Process/Session has new_session, Process/Daemon daemon, with
-- nix's as a parameter, and Process/Inherit the child's side of a fork, over the descriptors of the
-- kernel. Process/Display has the Display instances of Parent and Child.
--
-- Derive models privsep-derive/src/lib.rs: the attributes of the enum, the map of connections, its
-- resolution (Derive/Resolve is about it) and the arrays of connections that the generated code
-- passes to Parent::connect and Child::new (Derive/Table). Derive/Generate has derive_privsep_enum
-- as a whole; what it quotes is the record Generated, and the generated main, as_static_str and
-- try_from are functions of that record in Derive/Generated. Derive/Entries is about the loop over
-- the variants, Derive/Constants about the constants and conversions, Derive/Dispatch about main
-- together with Parent::new, Derive/Startup about the generated table together with Parent::connect
-- and Child::new, and Derive/Display has AsRef and Display of the enum and is about the way from a
-- number to the process that main starts.
--
-- Log models log/src/envlogger.rs and log/src/lib.rs. Of the first it has the filters, their test
-- (Log/Enabled) and their parser (Log/Parse). Of the second, Log/Targets has the configuration, the
-- formatter and the two targets (Log/Syslog is about one of them), Log/Async the queue and the task
-- of the async logger, with a step relation and its refinement of a drain that logs at once in
-- Log/Delivery, and Log/Global the start of the loggers (Log/Start is about it, Log/Identity about
-- the start under the name of a process) and the drop of the guard. A text is the list of its
-- bytes; Level::from_str, the order of the levels and what a record serializes are parameters.
--
-- Error models privsep/src/error.rs: the variants and their texts.
--
-- Simple models privsep/examples/simple.rs. Simple/Program has the enum and main, Simple/Child
-- child::main and hello::main, Simple/Parent parent::main, and Simple/Select the turns of
-- tokio::select! in their loops. Simple/Ends and Simple/ParentEnds are about how the loops end,
-- Simple/Kept about the descriptors that they receive, Simple/Echo and Simple/Rally about the
-- messages that go back and forth between the loops, Simple/Started (with Simple/Steps) about what
-- the parent has done before its loop, and Simple/Connected about the children after
-- Parent::connect and Child::new.
--
-- Numbers are the native ones; a `u16`, a `u32` and a `pid_t` are their bit patterns, with the
-- checks and casts of the source written out, and `usize` has 64 bits.
--
-- Loops: `recv_loop` runs on fuel, one more than the number of events, since each round but the
-- last takes an event; `walk` and `all_messages` on the length of the control buffer and one more,
-- since the macros step forward or not at all; `units` on the number of bytes, since a unit has a
-- positive size. A HashSet or HashMap is a list, and where the code goes through one, the order is
-- a parameter.
--
-- A control header whose data would lie outside of its buffer, which the kernel does not write, is
-- the result `fault` of the iterator, which the receive passes over; in the program there is no
-- value for it, and what is stated of the contents of control messages is stated for well-formed
-- ones. A text that is made a C string, such as an argument of execve, is taken to have no zero
-- byte, where CString::new(..).unwrap() panics, and a target behind slog's Fuse to log without an
-- error, where Fuse panics.
--
-- Not modelled: bincode and serde, which are the parameter Serde; syn, quote and convert_case,
-- which are data and parameters; the system calls themselves, which are answers or the parameter
-- Kernel; the second that Drop for Async waits at most; the bridge of slog_stdlog; the log messages
-- of the example, its sleeps and the task that it spawns to log a tick; the tests and the
-- documentation.
mod Prelude
pub mod Memory
pub mod Ancillary
pub mod Fd
pub mod Stream
pub mod Imsg
pub mod Process
pub mod Derive
pub mod Log
pub mod Error
pub mod Simple
