-- ===== src/Link.antt =====
-- One connection between a server and a client: `cellManager::doSend` on the server's side, the
-- bytes on their way, and `easyTcpClient::OnRun` with the callbacks of `tcp_client_notify` on the
-- client's side. TCP carries the bytes in order and loses none.
pub mod Prefix
pub mod Receiving
pub mod Rounds
mod Tests
use linux_tcp_lib.Prelude.{
  List-cases, take-nil, take-take, take-split, take-append-drop-length, ℕ, zero, suc, ◌+◌, ◌-◌, ◌*◌,
  ◌/◌, ◌%◌, ◌^◌, ◌≤◌, ◌<◌, ◌≡◌, refl, sym, ap, ap₂, ◌∙◌, ◌≢◌, ◌↔◌, ◌⊎◌, inl, inr, Bool, true, false,
  not, ◌&&◌, ◌||◌, Option, none, some, List, [], ◌∷◌, ◌++◌, map, append-nil, append_assoc, arith,
  ltb, leb, ◌==◌, if◌then◌else◌, ltb→lt, lt→ltb, leb→le, ==_iff, tests, Bool-cases, Option-cases,
  length, get_or, take, drop, length-append, take-append-drop, length-take, length-drop, take_all,
  drop_all, take-append_le, drop-append_le, take-length-append, drop-length-append, drop-nil,
  drop-drop, get_or-append_lt, get_elem?, set, length-set, get_elem?-set_self, get_elem?-set_ne,
  get_elem?-lt, get_elem?-set, set-get_elem?, get_elem?-append_lt, get_elem?-append_self, take-suc,
}
use linux_tcp_lib.ClientCell.{ClientCell}
use linux_tcp_lib.DoSend.{Writer, do_send}
use linux_tcp_lib.TcpClient.{EasyTcpClient, SelectAnswer, on_run}
use linux_tcp_lib.TcpClient.Closing.{client_notify}
use linux_tcp_lib.ClientNotify.{TcpClientHub}

module _ {H : Type 0} (hub : TcpClientHub H) where
  -- Rounds of a `doSend`, with what the socket takes, and of the client's loop, with what `select`
  -- and `recv` answer, until its loop ends. None if a call reads through NULL or does not return.
  unfoldable pub exchange :
      List (Writer × List SelectAnswer)
      → ClientCell
      → List ℕ
      → EasyTcpClient H
      → Option (ClientCell × List ℕ × EasyTcpClient H)
  exchange [] cell wire c = some (cell, wire, c)
  exchange ((socket, answers) ∷ rounds) cell wire c = elim (do_send socket cell) [
    | none ↦ none
    | some (cell', sent) ↦ elim (on_run (client_notify hub) answers c (wire ++ sent)) [
      | none ↦ none
      | some (true, c', rest) ↦ some (cell', rest, c')
      | some (false, c', rest) ↦ exchange rounds cell' rest c'
    ]
  ]
