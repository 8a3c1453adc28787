-- ===== src/Lib.antt =====
-- gdbstub: the GDB Remote Serial Protocol stub, as definitions and their theorems.
--
-- A client of GDB sends packets `$body#checksum`; the stub reads one into a buffer, checks it, parses
-- the body into a command by its name, runs a handler that calls the target, and replies with a
-- packet of its own. The parts, from the bytes up:
--
-- - Hex (src/protocol/common/hex.rs): `decode_hex`, `decode_hex_buf`, `is_hex`, and in Hex.Encode
--   `encode_hex_buf`. A slice is a list of bytes, and an in-place conversion gives the bytes of the
--   slice that it returns.
-- - BeBytes (src/internal/be_bytes.rs): the integer types by their size in bytes.
-- - Checksum, Packet, Packet.Received (src/protocol/packet.rs): the sum modulo 256, `PacketBuf` as a
--   buffer with the range of its body, and `Packet::from_buf`.
-- - ThreadId (src/protocol/common/thread_id.rs): ids of threads and processes. A `NonZeroUsize` is a
--   number that the parser checks to be nonzero; `usize` has 64 bits.
-- - Commands (src/protocol/commands.rs and src/protocol/commands/): a parser for each command,
--   and in Commands.Dispatch the table of the names, which the macro `commands!` expands to. Which
--   extensions a target has is a record of Booleans.
-- - Connection (src/connection/mod.rs): the trait as a record of operations. Theorems about
--   what is sent take a connection on which writes and flushes succeed (`IsReliable`).
-- - ResponseWriter (src/protocol/response_writer.rs): a writer is its state, and each method a
--   function from the state to an outcome and the state that it leaves (Prelude.Exec); an error keeps
--   what was written before it. The recursion of the loop in `write` is on the number of repeats.
-- - ConsoleOutput (src/protocol/console_output.rs): the output of a monitor command, with the state
--   that its callback works on.
-- - ManagedVec (src/util/managed_vec.rs): the packet buffer while a packet is read.
-- - Target (src/target/, src/arch.rs): the traits that the user implements, as records of operations.
--   Every operation takes the target and leaves one. A callback comes with the state that it works on,
--   and the operation may call it any number of times.
-- - Stub (src/gdbstub_impl/): a session is the state of `GdbStubImpl`, the writer, which owns
--   the connection, and the target; a handler is a function from a session to an outcome and the
--   session that it leaves. Stub.Queries, Stub.Threads, Stub.Access, Stub.Resume, Stub.Stop and
--   Stub.Extensions hold the handlers; Stub.Run the dispatch and one round of `run`; Stub.Receive
--   the reading of a packet and the loop; Stub.Builder the options that a stub is built with.
-- - LeBytes (src/internal/le_bytes.rs): the integer types by their size in bytes.
-- - Registers (gdbstub_arch/src/): the register blocks of the architectures. What `gdb_serialize`
--   hands to its callback is a list of bytes that may be unavailable; `gdb_deserialize` gives the
--   block, an error or a panic. Registers.Reader is the iterator over words that the methods
--   read; Registers.Codec and Registers.Sections hold what the proofs share. RISC-V and MIPS take the
--   number of bytes of a word, 4 or 8 in the code; an `f64` is its 64 bits, an 80-bit number its bytes.
-- - Tests: runs of the definitions, and the theorems at concrete inputs.
--
-- Loops over slices are recursions on the list. The loop of `m` has one round for each byte at most,
-- and is given as many; `do_vcont` is given one round, and takes one. A connection may go on forever,
-- so the reading of a packet and the loop of `run` take a bound, and say when it is reached. An
-- addition that overflows panics or wraps around as the build says. Texts of the target are
-- ASCII where `trim` looks at them. A read of memory gets the number of bytes, not the buffer's old
-- contents. What a failing `gdb_deserialize` leaves in the block is not modelled, as the stub drops it.
-- Not modelled: log messages, the connections to sockets, and the examples.
mod Prelude
pub mod Hex
pub mod BeBytes
pub mod LeBytes
pub mod Checksum
pub mod Connection
pub mod ThreadId
pub mod ResponseWriter
pub mod Packet
pub mod Commands
pub mod ManagedVec
pub mod ConsoleOutput
pub mod Target
pub mod Registers
pub mod Stub
mod Tests
