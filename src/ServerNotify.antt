-- ===== src/ServerNotify.antt =====
-- common/src/tcp_server_notify.h and tcp_server_notify.cpp: the callbacks of the server, of which
-- `OnRecvData` cuts the byte stream of a client into messages (built without USE_DISPATCH).
pub mod Delivers
pub mod Stream
mod Tests
use linux_tcp_lib.Prelude.{
  ℕ, zero, suc, ◌+◌, ◌-◌, ◌^◌, Bool, true, false, ◌||◌, ◌==◌, if◌then◌else◌, List, [], Option, none,
  some, drop,
}
use linux_tcp_lib.Words.{sub64, add64, sign_extend}
use linux_tcp_lib.Frame.{MsgHeader, msg_header_size, frame_ready, payload_at}

-- `tcp_server_hub`: the application, with a state of its own that `on_read` may change. It is
-- handed the client, the header and the bytes that the header announces.
pub record TcpServerHub (H : Type 0) : Type 0 where
  pub on_read : H → ℕ → MsgHeader → List ℕ → Bool × H

-- `return -1` from a function into `size_t`.
abbrev pub minus_one : ℕ
minus_one = 2 ^ 64 - 1

module _ {H : Type 0} (hub : TcpServerHub H) (clientid : ℕ) where
  -- The `while` loop; `none` means that the fuel ran out.
  unfoldable pub read_loop : ℕ → ℕ → List ℕ → ℕ → H → Option (ℕ × H)
  read_loop zero size pstr readpos h = none
  read_loop (suc fuel) size pstr readpos h =
      elim (frame_ready (sub64 size readpos) (drop readpos pstr)) [
        | none ↦ some (readpos, h)
        | some header ↦
            let r = hub.on_read h clientid header (payload_at (drop readpos pstr) header) in
            let next =
              read_loop fuel size pstr
                (add64 readpos (add64 msg_header_size (sign_extend header.data_size))) r.1 in
            if r.0 then next else some (readpos, r.1)
      ]

  -- `recvbuf` is none for NULL. The fuel is one round for each byte and one to stop.
  unfoldable pub on_recv_data : H → Option (List ℕ) → ℕ → Option (ℕ × H)
  on_recv_data h none len = some (minus_one, h)
  on_recv_data h (some recvbuf) len =
      if clientid == 0 || len == 0 then some (minus_one, h) else read_loop (suc len) len recvbuf 0 h
