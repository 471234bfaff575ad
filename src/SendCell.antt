-- ===== src/SendCell.antt =====
-- `send_cell` of base/src/tcp_common/send_cell.h and send_cell.cpp: a ring of messages that wait to
-- be sent. Its sizes and its error code stand in no file of the repository: they are parameters, as
-- is the header that is put in front of a message.
pub mod Ring
pub mod Fifo
mod Tests
use linux_tcp_lib.Prelude.{
  ℕ, zero, suc, ◌+◌, ◌-◌, ◌*◌, ◌/◌, ◌%◌, Bool, true, false, not, Option, none, some, List, [], ◌∷◌,
  ◌++◌, leb, ◌==◌, if◌then◌else◌, length, take, drop,
}

-- `send_cell_unit`, whose `ptr` holds the `size` bytes of a message.
pub record SendCellUnit : Type 0 where
  pub ptr : List ℕ
  pub size : ℕ
  pub send_pos : ℕ
  pub buf_size : ℕ
  pub enable_read : ℕ

-- The slots are pointers, none for nullptr. The positions count messages and do not reach 2 ^ 64.
pub record SendCell : Type 0 where
  pub scu_ptr : ℕ → Option SendCellUnit
  pub read_pos : ℕ
  pub write_pos : ℕ

-- A header in memory, and its field `size`.
pub record PackageHead : Type 0 where
  pub bytes : List ℕ
  pub size : ℕ

pub record Sizes : Type 0 where
  pub send_cell_size : ℕ
  pub send_cell_unit_single_size : ℕ

pub data WriteResult : Type 0 where
  ok : WriteResult
  write_cache_full : WriteResult

-- A slot of the ring written.
unfoldable pub set_slot :
    (ℕ → Option SendCellUnit) → ℕ → Option SendCellUnit → ℕ → Option SendCellUnit
set_slot scu_ptr i u j = if i == j then u else scu_ptr j

-- The constructor does not initialise the slots.
unfoldable pub send_cell : (ℕ → Option SendCellUnit) → SendCell
send_cell garbage = record { scu_ptr = garbage; read_pos = 0; write_pos = 0 }

module _ (z : Sizes) where
  unfoldable pub is_empty : SendCell → Bool
  is_empty c = c.write_pos % z.send_cell_size == c.read_pos % z.send_cell_size

  unfoldable pub is_full : SendCell → Bool
  is_full c = (c.write_pos + 1) % z.send_cell_size == c.read_pos % z.send_cell_size

  -- The message as `write_chche` makes it, with the first `ph.size` bytes of the caller's.
  -- The sizes are below 2 ^ 31, the range of the `int`s that the code computes them in.
  unfoldable pub new_unit : PackageHead → List ℕ → SendCellUnit
  new_unit ph ptr =
      let n = length ph.bytes + ph.size in
      record {
        ptr = ph.bytes ++ take ph.size ptr;
        size = n;
        send_pos = 0;
        buf_size = (n / z.send_cell_unit_single_size + 1) * z.send_cell_unit_single_size;
        enable_read = 1;
      }

  unfoldable pub write_chche : SendCell → PackageHead → List ℕ → WriteResult × SendCell
  unfolding set_slot
  write_chche c ph ptr = if is_full c then (write_cache_full, c) else (
    ok,
    record {
      scu_ptr = set_slot c.scu_ptr (c.write_pos % z.send_cell_size) (some (new_unit ph ptr));
      read_pos = c.read_pos;
      write_pos = c.write_pos + 1;
    },
  )

  unfoldable pub enable_read : SendCell → Bool
  enable_read c = if is_empty c then false else elim (c.scu_ptr (c.read_pos % z.send_cell_size)) [
    | none ↦ false
    | some u ↦ not (u.enable_read == 0)
  ]

  -- What the pointer points to: the bytes of the message that have not been sent.
  unfoldable pub read_chche : SendCell → Option (List ℕ)
  read_chche c =
      if enable_read c
      then elim (c.scu_ptr (c.read_pos % z.send_cell_size)) [
        | none ↦ none
        | some u ↦ some (drop u.send_pos u.ptr)
      ]
      else none

  unfoldable pub read_enable_len : SendCell → ℕ
  read_enable_len c =
      if enable_read c
      then elim (c.scu_ptr (c.read_pos % z.send_cell_size)) [
        | none ↦ 0
        | some u ↦ u.size - u.send_pos
      ]
      else 0

  -- None where the code reads through a null pointer.
  unfoldable pub has_read : SendCell → ℕ → Option SendCell
  unfolding set_slot
  has_read c len =
      let rpos = c.read_pos % z.send_cell_size in
      elim (c.scu_ptr rpos) [
        | none ↦ none
        | some u ↦
            let sent : SendCellUnit = record u { send_pos = u.send_pos + len } in
            if leb sent.size sent.send_pos
            then some (record {
              scu_ptr = set_slot c.scu_ptr rpos none;
              read_pos = c.read_pos + 1;
              write_pos = c.write_pos;
            })
            else some (record c { scu_ptr = set_slot c.scu_ptr rpos (some sent) })
      ]

  -- The loop of `clear`, with the messages that it frees; on a slot that holds no message it goes
  -- round for ever, which is none here, as when the rounds are used up.
  unfoldable pub clear_loop :
      ℕ → SendCell → List SendCellUnit → Option (SendCell × List SendCellUnit)
  unfolding set_slot
  clear_loop zero c freed = if is_empty c then some (c, freed) else none
  clear_loop (suc rounds) c freed = elim (is_empty c) [
    | true ↦ some (c, freed)
    | false ↦ elim (c.scu_ptr (c.read_pos % z.send_cell_size)) [
      | none ↦ none
      | some u ↦
          clear_loop rounds
            (record {
              scu_ptr = set_slot c.scu_ptr (c.read_pos % z.send_cell_size) none;
              read_pos = c.read_pos + 1;
              write_pos = c.write_pos;
            })
            (freed ++ u ∷ [])
    ]
  ]

  -- `clear`, with a round for each slot.
  unfoldable pub clear : SendCell → Option (SendCell × List SendCellUnit)
  clear c = clear_loop z.send_cell_size c []
