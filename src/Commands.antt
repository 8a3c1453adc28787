-- ===== src/Commands.antt =====
-- src/protocol/commands.rs and src/protocol/commands/*.rs: the commands, their parsers, and the
-- choice of a parser by the name at the front of the packet.
pub mod Types
pub mod VCont
pub mod Breakpoint
pub mod Base
pub mod Extended
pub mod Dispatch
