-- ===== src/ServerNotify/Tests.antt =====
-- `OnRecvData` on concrete streams.
use linux_tcp_lib.Prelude.{ℕ, ◌+◌, ◌≡◌, refl, some, List, [], ◌∷◌, ◌++◌, arith, length}
use linux_tcp_lib.Frame.{header_at, payload_at, frame_ready, encode, encode_all, int_bytes}
use linux_tcp_lib.Frame.Ready.{whole_frame}
use linux_tcp_lib.ServerNotify.{read_loop, on_recv_data}
use linux_tcp_lib.ServerNotify.Stream.{hand_over, on_recv_data-encode_all, on_recv_data-append}
use linux_tcp_lib.Fixtures.{Log, log_hub, hello, world}

on_recv_data-two :
    on_recv_data log_hub 5 []
      (some (encode_all (hello ∷ world ∷ []) ++ 7 ∷ []))
      (length (encode_all (hello ∷ world ∷ []) ++ 7 ∷ []))
    ≡ some (length (encode_all (hello ∷ world ∷ [])), hand_over log_hub 5 [] (hello ∷ world ∷ []))
unfolding encode_all encode whole_frame int_bytes
on_recv_data-two =
    on_recv_data-encode_all log_hub 5 [] (hello ∷ world ∷ []) (7 ∷ []) (λ h header body. refl)
      ((omega arith, omega arith, omega arith), ((omega arith, omega arith, omega arith), tt)) refl
      (omega arith) (omega arith) (omega arith)

abbrev later : List ℕ
later = 1 ∷ 2 ∷ []

abbrev front : List ℕ
front = 7 ∷ 0 ∷ 0 ∷ 0 ∷ 2 ∷ 0 ∷ 0 ∷ 0 ∷ 104 ∷ 105 ∷ 8 ∷ []

abbrev taken : Log
taken = (5, record { type = 7; data_size = 2 }, 104 ∷ 105 ∷ []) ∷ []

on_recv_data-front : on_recv_data log_hub 5 [] (some front) 11 ≡ some (10, taken)
unfolding on_recv_data read_loop frame_ready header_at payload_at
on_recv_data-front = refl

on_recv_data-rest : on_recv_data log_hub 5 taken (some (8 ∷ 1 ∷ 2 ∷ [])) 3 ≡ some (0, taken)
unfolding on_recv_data read_loop frame_ready
on_recv_data-rest = refl

on_recv_data-joined :
    on_recv_data log_hub 5 [] (some (front ++ later)) (length (front ++ later))
    ≡ some (10 + 0, taken)
on_recv_data-joined =
    on_recv_data-append log_hub 5 [] taken taken front later 10 0 (λ h header body. refl)
      (omega arith) (omega arith) (omega arith) (omega arith) on_recv_data-front on_recv_data-rest
