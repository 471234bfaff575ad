-- ===== src/ClientCache/Tests.antt =====
-- The client's receive loop with an application that reads the first byte of each message, and
-- writes over the block.
use linux_tcp_lib.Prelude.{
  ℕ, suc, ◌+◌, ◌≡◌, sym, ap, ◌∙◌, some, List, [], ◌∷◌, ◌++◌, arith, length, get_or,
}
use linux_tcp_lib.Memory.{Memory, slice}
use linux_tcp_lib.Frame.{int_bytes, encode}
use linux_tcp_lib.ClientNotify as Client
use linux_tcp_lib.ClientCache.{BlockHub, MsgCache, tcp_client_notify, on_recv_data}
use linux_tcp_lib.ClientCache.Blocks.{Holds, Balanced, Reads, by_bytes}
use linux_tcp_lib.ClientCache.Loop.{on_recv_data-by_bytes}

abbrev first_bytes : BlockHub (List ℕ)
first_bytes = record { handle_block = λ h type m. (h ++ m 0 ∷ [], λ i. 9) }

first_byte : (m : Memory) (body : List ℕ) → Holds m body → m 0 ≡ get_or (body ++ 0 ∷ []) 0 0
unfolding slice Holds
first_byte m [] holds = ap (λ l. get_or l 0 0) holds
first_byte m (x ∷ xs) holds =
    let e : suc (length xs + 1) ≡ suc (length xs) + 1 = omega arith in
    ap (λ n. get_or (slice m 0 n) 0 0) e ∙ ap (λ l. get_or l 0 0) holds

first_bytes-Reads : Reads first_bytes
unfolding Reads
first_bytes-Reads h type body m m' v w =
    ap (λ b. h ++ b ∷ []) (first_byte m body v ∙ sym (first_byte m' body w))

-- What `new` finds in a block.
abbrev dirt : ℕ → Memory
dirt k i = k + i

abbrev two_messages : List ℕ
two_messages =
    encode record { type = 1; body = 7 ∷ 8 ∷ [] } ++ encode record { type = 2; body = 5 ∷ [] }

abbrev new_client : MsgCache
new_client = tcp_client_notify dirt

on_recv_data-two_messages :
    (n : ℕ) × (h' : List ℕ) × (c' : MsgCache) × (on_recv_data first_bytes dirt [] new_client
        (some two_messages)
        (length two_messages)
      ≡ some (n, h', c'))
    × (Client.on_recv_data (by_bytes first_bytes) [] (some two_messages) (length two_messages)
        ≡ some (n, h'))
    × Balanced new_client c'
unfolding tcp_client_notify encode int_bytes
on_recv_data-two_messages =
    on_recv_data-by_bytes first_bytes dirt [] new_client two_messages first_bytes-Reads
      (omega arith) (omega arith)
