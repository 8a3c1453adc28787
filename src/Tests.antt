-- ===== src/Tests.antt =====
-- Tests of the definitions on small inputs, and the theorems at concrete ones.
mod Tape
mod Protocol
mod Stub
mod Threads
mod Encode
mod Actions
mod Registers
mod Writer
mod Blocks
mod Console
mod Talks
mod Detached
