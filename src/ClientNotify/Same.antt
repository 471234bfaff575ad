-- ===== src/ClientNotify/Same.antt =====
-- The client cuts the stream as the server does.
use linux_tcp_lib.Prelude.{
  ℕ, zero, suc, ◌^◌, ◌<◌, ◌≡◌, refl, ap, ◌∙◌, inl, inr, true, false, Option, none, some, List, [],
  ◌∷◌, ◌++◌, arith, ◌==◌, Bool-cases, Option-cases, length, drop,
}
use linux_tcp_lib.Words.{add64, sub64, sign_extend}
use linux_tcp_lib.Frame.{msg_header_size, payload_at, frame_ready, Message, encode_all}
use linux_tcp_lib.Frame.Ready.{whole_frame}
use linux_tcp_lib.ServerNotify.{TcpServerHub}
use linux_tcp_lib.ServerNotify.Stream.{AllSendable, hand_over, on_recv_data-encode_all}
use linux_tcp_lib.ServerNotify as Server
use linux_tcp_lib.ClientNotify.{TcpClientHub, read_loop, on_recv_data}

module _ {H : Type 0} (hub : TcpClientHub H) where
  -- The server's application that does the same, and takes every message.
  unfoldable pub as_server : TcpServerHub H
  as_server = record {
    on_read = λ h clientid header body. (true, hub.handle_msg h header.type body);
  }

  read_loop-same :
      (k : ℕ) (fuel size : ℕ) (pstr : List ℕ) (readpos : ℕ) (h : H)
      → read_loop hub fuel size pstr readpos h
        ≡ Server.read_loop as_server k fuel size pstr readpos h
  unfolding read_loop Server.read_loop as_server
  read_loop-same k zero size pstr readpos h = refl
  read_loop-same k (suc fuel) size pstr readpos h =
      elim (Option-cases (frame_ready (sub64 size readpos) (drop readpos pstr))) [
        | inl e ↦ rw (e, read_loop, Server.read_loop)
        | inr (header, e) ↦
            rw (e, read_loop, Server.read_loop)
              (read_loop-same k fuel size pstr
                (add64 readpos (add64 msg_header_size (sign_extend header.data_size)))
                (hub.handle_msg h header.type (payload_at (drop readpos pstr) header)))
      ]

  -- On every input, NULL and no bytes included, the client's `OnRecvData` returns the number, and
  -- leaves the application in the state, that the server's returns and leaves for a client id that
  -- is not 0 and an application that does the same with each message and takes it.
  pub on_recv_data-same :
      (k : ℕ) (h : H) (buf : Option (List ℕ)) (len : ℕ)
      → 0 < k
      → on_recv_data hub h buf len ≡ Server.on_recv_data as_server k h buf len
  unfolding on_recv_data Server.on_recv_data
  on_recv_data-same k h none len id = refl
  on_recv_data-same k h (some buf) len id = elim (Bool-cases (len == 0)) [
    | inl e ↦ let e' : (k == 0) ≡ false = ground arith in rw (e, e')
    | inr e ↦
        let e' : (k == 0) ≡ false = ground arith in
        rw (e, e') (read_loop-same k (suc len) len buf 0 h)
  ]

  -- What the client makes of a list of messages, one by one.
  unfoldable pub handle_all : H → List Message → H
  handle_all h [] = h
  handle_all h (m ∷ ms) = handle_all (hub.handle_msg h m.type m.body) ms

  pub hand_over-handle_all :
      (h : H) (ms : List Message) → hand_over as_server 1 h ms ≡ handle_all h ms
  unfolding hand_over handle_all as_server
  hand_over-handle_all h [] = refl
  hand_over-handle_all h (m ∷ ms) = hand_over-handle_all (hub.handle_msg h m.type m.body) ms

  -- Given the encodings of messages that are sendable, and behind them bytes that begin with no
  -- whole frame, together 1 to 2 ^ 31 - 1 bytes, the client handles exactly those messages, in
  -- order, and returns the length of their encodings.
  pub on_recv_data-messages :
      (h : H) (ms : List Message) (rest : List ℕ)
      → AllSendable ms
      → whole_frame rest ≡ none
      → 0 < length (encode_all ms ++ rest)
      → length (encode_all ms ++ rest) < 2 ^ 31
      → on_recv_data hub h (some (encode_all ms ++ rest)) (length (encode_all ms ++ rest))
        ≡ some (length (encode_all ms), handle_all h ms)
  unfolding as_server
  on_recv_data-messages h ms rest ok part pos lt =
      on_recv_data-same 1 h (some (encode_all ms ++ rest)) (length (encode_all ms ++ rest))
        (omega arith)
      ∙ on_recv_data-encode_all as_server 1 h ms rest (λ h' header body. refl) ok part (omega arith)
          pos lt
      ∙ ap (λ x. some (length (encode_all ms), x)) (hand_over-handle_all h ms)
