-- ===== src/Frame.antt =====
-- The wire format: common/src/tcp_struct.h, and the guards that the receive loops of
-- common/src/tcp_server_notify.cpp and common/src/tcp_client_notify.cpp share.
pub mod Ready
use linux_tcp_lib.Prelude.{
  ℕ, ◌+◌, ◌*◌, ◌/◌, ◌%◌, ◌^◌, List, [], ◌∷◌, ◌++◌, Option, none, some, length, get_or, take, drop,
  if◌then◌else◌,
}
use linux_tcp_lib.Words.{sub64, to_int, sign_extend, int_lt, int_le}

-- `msg_header`: two `int`s, kept as their bit patterns.
pub record MsgHeader : Type 0 where
  pub type : ℕ
  pub data_size : ℕ

-- `sizeof(common::msg_header)`.
abbrev pub msg_header_size : ℕ
msg_header_size = 8

-- The low eight bits at index `i`.
abbrev pub byte_at : List ℕ → ℕ → ℕ
byte_at p i = get_or p i 0 % 256

-- A little-endian `int` at the pointer `p`.
abbrev pub read_int : List ℕ → ℕ
read_int p = byte_at p 0 + 256 * byte_at p 1 + 65536 * byte_at p 2 + 16777216 * byte_at p 3

-- `(common::msg_header*)(pstr + readpos)`, with `p` the bytes from `pstr + readpos` on.
unfoldable pub header_at : List ℕ → MsgHeader
header_at p = record { type = read_int p; data_size = read_int (drop 4 p) }

-- `pstr + readpos + m_msg_header_size_`, as far as the callee may read it.
unfoldable pub payload_at : List ℕ → MsgHeader → List ℕ
payload_at p h = take h.data_size (drop msg_header_size p)

-- The loop's condition and the two tests under it: the header of the next frame, or none where the
-- loop ends. `avail` is `size - readpos`.
unfoldable pub frame_ready : ℕ → List ℕ → Option MsgHeader
frame_ready avail p =
    if int_lt msg_header_size (to_int avail)
    then (if int_le (header_at p).data_size 0
        then none
        else if int_le 0
            (to_int (sub64 (sub64 avail msg_header_size) (sign_extend (header_at p).data_size)))
        then some (header_at p)
        else none)
    else none

-- What a sender puts on the wire for one message.
pub record Message : Type 0 where
  pub type : ℕ
  pub body : List ℕ

unfoldable pub int_bytes : ℕ → List ℕ
int_bytes n = (n % 256) ∷ (n / 256 % 256) ∷ (n / 65536 % 256) ∷ (n / 16777216 % 256) ∷ []

unfoldable pub encode : Message → List ℕ
encode m = int_bytes m.type ++ (int_bytes (length m.body) ++ m.body)

unfoldable pub encode_all : List Message → List ℕ
encode_all [] = []
encode_all (m ∷ ms) = encode m ++ encode_all ms
