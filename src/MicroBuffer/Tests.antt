-- ===== src/MicroBuffer/Tests.antt =====
-- A buffer of four bytes, and one of five that runs into the overlap.
use linux_tcp_lib.Prelude.{◌+◌, ◌*◌, ◌≤◌, ◌≡◌, refl, ◌⊎◌, none, some, drop, [], ◌∷◌, arith}
use linux_tcp_lib.Memory.{slice, store, copy}
use linux_tcp_lib.MicroBuffer.{
  MicroBuffer, micro_buffer, enable_write, has_write, enable_read, has_read, readable, fill,
}
use linux_tcp_lib.MicroBuffer.Fifo.{IsMicroBuffer, Reach, fresh, writes, reads, Reach-fifo}

abbrev filled : MicroBuffer
filled = has_write (fill (micro_buffer 4) (1 ∷ 2 ∷ 3 ∷ [])) 3

filled-Reach : Reach 4 filled (1 ∷ 2 ∷ 3 ∷ []) []
unfolding enable_write micro_buffer
filled-Reach = writes (1 ∷ 2 ∷ 3 ∷ []) fresh (omega arith)

abbrev rest : MicroBuffer
rest = record {
  read_pos = 0;
  write_pos = 1;
  total_size = 4;
  buf = copy (store (λ i. 0) 0 (1 ∷ 2 ∷ 3 ∷ [])) 0 2 1;
}

filled-has_read : has_read filled 2 ≡ some rest
unfolding has_read has_write fill micro_buffer
filled-has_read = refl

filled-enable_read : 2 ≤ enable_read filled
unfolding enable_read has_write fill micro_buffer
filled-enable_read = omega arith

rest-Reach : Reach 4 rest (1 ∷ 2 ∷ 3 ∷ []) (1 ∷ 2 ∷ [])
unfolding readable enable_read slice has_write fill store micro_buffer
rest-Reach = reads 2 filled-Reach filled-enable_read filled-has_read

rest-enable_read : 1 ≤ enable_read rest
unfolding enable_read
rest-enable_read = omega arith

rest-fifo :
    (1 ∷ 2 ∷ readable rest ≡ 1 ∷ 2 ∷ 3 ∷ [])
    × IsMicroBuffer rest
    × (((b' : MicroBuffer) × (has_read rest 1 ≡ some b') × (readable b' ≡ drop 1 (readable rest)))
        ⊎ ((has_read rest 1 ≡ none) × (2 * (rest.read_pos + 1) + 1 ≡ 4) × (rest.write_pos ≡ 4)))
rest-fifo = Reach-fifo 1 (omega arith) rest-Reach rest-enable_read
