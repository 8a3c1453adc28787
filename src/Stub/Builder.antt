-- ===== src/Stub/Builder.antt =====
-- src/gdbstub_impl/builder.rs, and `GdbStub::new` and `GdbStub::builder` of mod.rs.
use gdbstub.Prelude.{
  Bytes, ltb, if◌then◌else◌, length, take, replicate, Result, ok, err, ℕ, Bool, Option, none, some,
}
use gdbstub.Connection.{Connection}
use gdbstub.ManagedVec.{Ownership, borrowed, owned}

pub data GdbStubBuilderError : Type 0 where
  missing_packet_buffer : GdbStubBuilderError
  packet_buf_size_mismatch : GdbStubBuilderError

module _ (c : Connection) where
  pub record GdbStubBuilder : Type 0 where
    pub conn : c.Conn
    pub packet_buffer : Option Bytes
    pub packet_buffer_size : Option ℕ

  -- The state of a session begins with `run`.
  pub record GdbStub : Type 0 where
    pub conn : c.Conn
    pub ownership : Ownership
    pub packet_buffer : Bytes

  unfoldable pub builder : c.Conn → GdbStubBuilder
  builder conn = record { conn = conn; packet_buffer = none; packet_buffer_size = none }

  unfoldable pub with_packet_buffer : Bytes → GdbStubBuilder → GdbStubBuilder
  with_packet_buffer packet_buffer b = record b { packet_buffer = some packet_buffer }

  unfoldable pub packet_buffer_size : ℕ → GdbStubBuilder → GdbStubBuilder
  packet_buffer_size size b = record b { packet_buffer_size = some size }

  abbrev sized : Bytes → Option ℕ → Result GdbStubBuilderError Bytes
  sized buf none = ok buf
  sized buf (some custom_len) =
      if ltb (length buf) custom_len then err packet_buf_size_mismatch else ok (take custom_len buf)

  abbrev heap : ℕ → Bytes
  heap len = replicate len 0

  abbrev allocated : Bool → Option ℕ → Result GdbStubBuilderError Bytes
  allocated alloc size = if alloc then ok (heap (len size)) else err missing_packet_buffer
    where
      len : Option ℕ → ℕ
      len none = 4096
      len (some n) = n

  abbrev stub_with :
      c.Conn → Ownership → Result GdbStubBuilderError Bytes → Result GdbStubBuilderError GdbStub
  stub_with conn ownership (ok buf) =
      ok (record { conn = conn; ownership = ownership; packet_buffer = buf })
  stub_with conn ownership (err e) = err e

  -- `alloc` is the feature.
  unfoldable pub build : Bool → GdbStubBuilder → Result GdbStubBuilderError GdbStub
  build alloc b = go b.packet_buffer
    where
      go : Option Bytes → Result GdbStubBuilderError GdbStub
      go (some buf) = stub_with b.conn borrowed (sized buf b.packet_buffer_size)
      go none = stub_with b.conn owned (allocated alloc b.packet_buffer_size)
