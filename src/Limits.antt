-- ===== src/Limits.antt =====
-- base/src/tcp_common/common.h and the error codes of base/src/base_error.h that the server
-- returns. All are `int64_t` or enum constants, positive and below 2 ^ 31.
use linux_tcp_lib.Prelude.{ℕ, ◌≡◌, arith}

abbrev pub server_max_send_times : ℕ
server_max_send_times = 1000

abbrev pub sys_send_buf : ℕ
sys_send_buf = 1048576

abbrev pub sys_recv_buf : ℕ
sys_recv_buf = 1048576

abbrev pub client_cell_send_buf : ℕ
client_cell_send_buf = 1048576

abbrev pub sys_listen_max_conn : ℕ
sys_listen_max_conn = 20

-- `enum BASE_ERROR`.
pub data BaseError : Type 0 where
  s_ok : BaseError
  tcp_server_port : BaseError
  tcp_server_socket : BaseError
  tcp_server_bind : BaseError
  tcp_server_listen : BaseError
  tcp_server_epoll_create : BaseError
  tcp_server_bind_cpu : BaseError
  tcp_server_client_closed : BaseError
  tcp_server_push_cache_failed : BaseError
  tcp_server_send_cache_full : BaseError
  tcp_client_send : BaseError

unfoldable pub code : BaseError → ℕ
code s_ok = 0
code tcp_server_port = 101001
code tcp_server_socket = 101101
code tcp_server_bind = 101102
code tcp_server_listen = 101103
code tcp_server_epoll_create = 101104
code tcp_server_bind_cpu = 101105
code tcp_server_client_closed = 101201
code tcp_server_push_cache_failed = 101202
code tcp_server_send_cache_full = 101203
code tcp_client_send = 102001

-- No two errors share a code.
pub code_injective : (a b : BaseError) → code a ≡ code b → a ≡ b
unfolding code
code_injective a b e = ground arith
