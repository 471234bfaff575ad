-- ===== src/ServerStream/Tests.antt =====
-- The receive path on a concrete connection.
use linux_tcp_lib.Prelude.{ℕ, ◌≡◌, refl, sym, none, List, [], ◌∷◌, ◌++◌, append-nil, arith}
use linux_tcp_lib.Frame.{encode_all, encode, int_bytes, frame_ready, header_at, payload_at}
use linux_tcp_lib.Frame.Ready.{whole_frame}
use linux_tcp_lib.ServerNotify.Stream.{hand_over}
use linux_tcp_lib.ClientCell.{client_cell}
use linux_tcp_lib.DoRecv.{
  ReadResult, ready, pending, recv_loop, read_bytes, after_read, after_callback, store_bytes,
  consume,
}
use linux_tcp_lib.Memory.{slice, store, copy}
use linux_tcp_lib.ServerNotify.{on_recv_data, read_loop}
use linux_tcp_lib.ServerStream.{server_notify, recv_loop-messages}
use linux_tcp_lib.Fixtures.{log_hub, hello, world, cell, cell-IsBuffer}

abbrev answers : List ReadResult
answers = ready 1048576 ∷ []

abbrev wire : List ℕ
wire = encode_all (hello ∷ world ∷ [])

empty : whole_frame (pending cell) ≡ none
unfolding whole_frame pending slice client_cell
empty = refl

wire-all : pending cell ++ wire ≡ wire ++ []
unfolding pending slice client_cell
wire-all = sym (append-nil wire)

wire-read : wire ++ (recv_loop (server_notify log_hub) answers wire cell []).incoming ≡ wire
unfolding recv_loop server_notify client_cell read_bytes after_read after_callback store_bytes
    consume pending slice store copy encode_all encode int_bytes on_recv_data read_loop frame_ready
    header_at payload_at
wire-read = refl

recv_loop-wire :
    let out = recv_loop (server_notify log_hub) answers wire cell [] in
    (out.notify ≡ hand_over log_hub 5 [] (hello ∷ world ∷ [])) × (pending out.cell ≡ [])
unfolding client_cell whole_frame
recv_loop-wire =
    recv_loop-messages log_hub answers wire cell [] wire (hello ∷ world ∷ []) []
      (λ h header body. refl) (omega arith) cell-IsBuffer empty wire-read wire-all
      ((omega arith, omega arith, omega arith), ((omega arith, omega arith, omega arith), tt)) refl
