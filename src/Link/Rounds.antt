-- ===== src/Link/Rounds.antt =====
-- The messages that the server has taken to send, and those that the client has handled.
use linux_tcp_lib.Prelude.{
  ℕ, ◌≡◌, refl, sym, ap, ◌∙◌, inl, inr, Bool, true, false, Option, some, List, [], ◌∷◌, ◌++◌,
  append_assoc,
}
use linux_tcp_lib.Frame.{Message, encode_all}
use linux_tcp_lib.ServerNotify.Stream.{AllSendable}
use linux_tcp_lib.ClientCell.{SendCell, ClientCell}
use linux_tcp_lib.ClientCell.Ring.{IsRing}
use linux_tcp_lib.ClientNotify.{TcpClientHub}
use linux_tcp_lib.ClientNotify.Same.{handle_all}
use linux_tcp_lib.DoSend.{Writer}
use linux_tcp_lib.DoSend.Conserves.{unsent_all, do_send-Sends}
use linux_tcp_lib.TcpClient.{EasyTcpClient, SelectAnswer, pending}
use linux_tcp_lib.TcpClient.Buffer.{IsBuffer}
use linux_tcp_lib.TcpClient.Closing.{client_notify}
use linux_tcp_lib.Link.{exchange}
use linux_tcp_lib.Link.Receiving.{State, handle_all-append, on_run-Reads}

module _ {H : Type 0} (hub : TcpClientHub H) where
  -- The ring, the bytes on their way and the client after some rounds.
  pub record Arrives (h : H) (ms : List Message)
      (out : Option (ClientCell × List ℕ × EasyTcpClient H)) : Type 0 where
    pub cell' : ClientCell
    pub cs' : List SendCell
    pub wire' : List ℕ
    pub c' : EasyTcpClient H
    pub ended : Bool
    pub done : List Message
    pub left : List Message
    pub result : out ≡ some (cell', wire', c')
    pub ring : IsRing cell' cs'
    pub all : ms ≡ done ++ left
    pub handled : c'.notify ≡ handle_all hub h done
    pub state : State hub ended c' wire' (unsent_all cs') left

  -- For a sound ring and a sound client, where the bytes that are pending at the client, on their way
  -- and still to be sent are the encodings of sendable messages: through any number of rounds of
  -- `doSend` and of the client's loop, whatever the sockets and `select` answer, no call reads
  -- through NULL and all return; the application of the client has handled the first of the messages,
  -- in order, each once; and the client no longer runs, or the bytes that are pending, on their way
  -- and still to be sent are the encodings of the other messages.
  pub exchange-Arrives :
      (rounds : List (Writer × List SelectAnswer)) (cell : ClientCell) (cs : List SendCell)
      (wire : List ℕ) (c : EasyTcpClient H) (ms : List Message)
      → IsRing cell cs
      → IsBuffer c
      → AllSendable ms
      → pending (client_notify hub) c ++ (wire ++ unsent_all cs) ≡ encode_all ms
      → Arrives c.notify ms (exchange hub rounds cell wire c)
  unfolding exchange handle_all
  exchange-Arrives [] cell cs wire c ms ring v ok e = record {
    cell' = cell;
    cs' = cs;
    wire' = wire;
    c' = c;
    ended = false;
    done = [];
    left = ms;
    result = refl;
    ring = ring;
    all = refl;
    handled = refl;
    state = inr (refl, v, ok, e);
  }
  exchange-Arrives ((socket, answers) ∷ rounds) cell cs wire c ms ring v ok e =
      let g = do_send-Sends socket cell cs ring in
      let total : pending (client_notify hub) c ++ ((wire ++ g.more) ++ unsent_all g.cs')
          ≡ encode_all ms =
        ap (◌++◌ (pending (client_notify hub) c))
          (append_assoc wire g.more (unsent_all g.cs') ∙ ap (◌++◌ wire) g.bytes)
        ∙ e in
      let r = on_run-Reads hub answers c (wire ++ g.more) (unsent_all g.cs') ms v ok total in
      elim r.state [
        | inl (stop, off) ↦
            rw (g.result, r.result, stop, exchange)
              record {
                cell' = g.cell';
                cs' = g.cs';
                wire' = r.rest;
                c' = r.c';
                ended = true;
                done = r.done;
                left = r.left;
                result = refl;
                ring = g.ring;
                all = r.all;
                handled = r.handled;
                state = inl (refl, off);
              }
        | inr (on, v', ok', e') ↦
            let a = exchange-Arrives rounds g.cell' g.cs' r.rest r.c' r.left g.ring v' ok' e' in
            rw (g.result, r.result, on, exchange)
              record {
                cell' = a.cell';
                cs' = a.cs';
                wire' = a.wire';
                c' = a.c';
                ended = a.ended;
                done = r.done ++ a.done;
                left = a.left;
                result = a.result;
                ring = a.ring;
                all = r.all ∙ ap (◌++◌ r.done) a.all ∙ sym (append_assoc r.done a.done a.left);
                handled =
                    a.handled
                    ∙ ap (λ i. handle_all hub i a.done) r.handled
                    ∙ sym (handle_all-append hub c.notify r.done a.done);
                state = a.state;
              }
      ]
