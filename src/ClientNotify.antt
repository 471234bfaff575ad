-- ===== src/ClientNotify.antt =====
-- common/src/tcp_client_notify.h and tcp_client_notify.cpp: the callbacks of the client, of which
-- `OnRecvData` cuts the byte stream of the server into messages.
pub mod Same
mod Tests
use linux_tcp_lib.Prelude.{
  ℕ, zero, suc, ◌-◌, ◌^◌, Option, none, some, List, ◌==◌, if◌then◌else◌, drop,
}
use linux_tcp_lib.Words.{add64, sub64, sign_extend}
use linux_tcp_lib.Frame.{MsgHeader, msg_header_size, payload_at, frame_ready}

-- The class that inherits `tcp_client_notify`, with a state that its `handle_msg` changes. It is
-- handed the type and the bytes of the message: a copy in `m_msg_cache`, or in a block of its own
-- where the cache is too small.
pub record TcpClientHub (H : Type 0) : Type 0 where
  pub handle_msg : H → ℕ → List ℕ → H

-- `return -1` from a function into `size_t`.
abbrev minus_one : ℕ
minus_one = 2 ^ 64 - 1

module _ {H : Type 0} (hub : TcpClientHub H) where
  -- The `while` loop; none means that the fuel ran out.
  unfoldable pub read_loop : ℕ → ℕ → List ℕ → ℕ → H → Option (ℕ × H)
  read_loop zero size pstr readpos h = none
  read_loop (suc fuel) size pstr readpos h =
      elim (frame_ready (sub64 size readpos) (drop readpos pstr)) [
        | none ↦ some (readpos, h)
        | some header ↦
            read_loop fuel size pstr
              (add64 readpos (add64 msg_header_size (sign_extend header.data_size)))
              (hub.handle_msg h header.type (payload_at (drop readpos pstr) header))
      ]

  -- `buf` is none for NULL. The fuel is one round for each byte and one to stop.
  unfoldable pub on_recv_data : H → Option (List ℕ) → ℕ → Option (ℕ × H)
  unfolding read_loop
  on_recv_data h none len = some (minus_one, h)
  on_recv_data h (some buf) len =
      if len == 0 then some (minus_one, h) else read_loop (suc len) len buf 0 h
