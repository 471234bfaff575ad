-- ===== src/MicroBuffer.antt =====
-- `micro_buffer` of base/src/tcp_common/micro_buffer.h and micro_buffer.cpp: a buffer of bytes with
-- a read position and a write position.
pub mod Fifo
mod Tests
use linux_tcp_lib.Prelude.{
  ℕ, ◌+◌, ◌-◌, ◌/◌, ◌%◌, ◌^◌, Option, none, some, List, ltb, leb, if◌then◌else◌,
}
use linux_tcp_lib.Memory.{Memory, slice, store, copy}

-- Positions and sizes are `uint64_t`.
pub record MicroBuffer : Type 0 where
  pub read_pos : ℕ
  pub write_pos : ℕ
  pub total_size : ℕ
  pub buf : Memory

unfoldable pub micro_buffer : ℕ → MicroBuffer
micro_buffer len = record { read_pos = 0; write_pos = 0; total_size = len; buf = λ i. 0 }

unfoldable pub enable_write : MicroBuffer → ℕ
enable_write b = (b.total_size + 2 ^ 64 - b.write_pos) % 2 ^ 64

unfoldable pub has_write : MicroBuffer → ℕ → MicroBuffer
has_write b len = record b { write_pos = (b.write_pos + len) % 2 ^ 64 }

unfoldable pub enable_read : MicroBuffer → ℕ
enable_read b = (b.write_pos + 2 ^ 64 - b.read_pos) % 2 ^ 64

-- None where `memcpy` is given blocks that overlap, which is undefined.
unfoldable pub has_read : MicroBuffer → ℕ → Option MicroBuffer
has_read b len =
    let read_pos = (b.read_pos + len) % 2 ^ 64 in
    let left = (b.write_pos + 2 ^ 64 - read_pos) % 2 ^ 64 in
    if leb (b.total_size / 2) read_pos
    then (if ltb read_pos left
        then none
        else some (record b { buf = copy b.buf 0 read_pos left; write_pos = left; read_pos = 0 }))
    else some (record b { read_pos = read_pos })

-- The bytes behind `read_pos()` that the reader may take.
unfoldable pub readable : MicroBuffer → List ℕ
unfolding enable_read
readable b = slice b.buf b.read_pos (enable_read b)

-- What a writer puts at `write_pos()` before it calls `has_write`.
unfoldable pub fill : MicroBuffer → List ℕ → MicroBuffer
fill b bytes = record b { buf = store b.buf b.write_pos bytes }
