-- ===== src/SendCell/Tests.antt =====
-- A ring of four slots with one message.
use linux_tcp_lib.Prelude.{
  suc, ◌<◌, ◌≡◌, refl, ◌⊎◌, none, some, List, [], ◌∷◌, ◌++◌, arith, length, drop,
}
use linux_tcp_lib.SendCell.{
  SendCellUnit, SendCell, PackageHead, Sizes, ok, write_cache_full, send_cell, write_chche,
  read_chche, read_enable_len, clear,
}
use linux_tcp_lib.SendCell.Ring.{IsRing, bytes}
use linux_tcp_lib.SendCell.Fifo.{write_chche_lem, read_chche_lem, clear_lem}

abbrev sizes : Sizes
sizes = record { send_cell_size = 4; send_cell_unit_single_size = 8 }

abbrev head : PackageHead
head = record { bytes = 7 ∷ 2 ∷ []; size = 2 }

abbrev message : SendCellUnit
message = record {
  ptr = 7 ∷ 2 ∷ 104 ∷ 105 ∷ [];
  size = 4;
  send_pos = 1;
  buf_size = 8;
  enable_read = 1;
}

-- The fourth slot holds the message, of which a byte has been sent.
abbrev ring : SendCell
ring = record { scu_ptr = λ i. some message; read_pos = 7; write_pos = 8 }

ring-IsRing : IsRing sizes ring (message ∷ [])
ring-IsRing = record {
  room = omega arith;
  slots = (refl, record { holds = refl; unsent = omega arith; enabled = refl }, omega arith);
}

new-IsRing : IsRing sizes (send_cell (λ i. none)) []
unfolding send_cell
new-IsRing = record { room = omega arith; slots = refl }

write_chche-new :
    ((suc 0 ≡ sizes.send_cell_size)
      × (write_chche sizes (send_cell (λ i. none)) head (104 ∷ 105 ∷ [])
          ≡ (write_cache_full, send_cell (λ i. none))))
    ⊎ ((c' : SendCell) × (us' : List SendCellUnit) × (write_chche sizes
            (send_cell (λ i. none))
            head
            (104 ∷ 105 ∷ [])
          ≡ (ok, c'))
        × IsRing sizes c' us'
        × (bytes us' ≡ bytes [] ++ (7 ∷ 2 ∷ 104 ∷ 105 ∷ [])))
write_chche-new =
    write_chche_lem sizes (send_cell (λ i. none)) [] head (104 ∷ 105 ∷ []) new-IsRing (omega arith)
      (omega arith)

read_chche-ring :
    (read_chche sizes ring ≡ some (2 ∷ 104 ∷ 105 ∷ []))
    × (read_enable_len sizes ring ≡ length (drop message.send_pos message.ptr))
    × (0 < read_enable_len sizes ring)
read_chche-ring = read_chche_lem sizes ring message [] ring-IsRing

clear-ring : (c' : SendCell) × (clear sizes ring ≡ some (c', message ∷ [])) × IsRing sizes c' []
clear-ring = clear_lem sizes ring (message ∷ []) ring-IsRing
