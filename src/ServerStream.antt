-- ===== src/ServerStream.antt =====
-- The server's receive path as a whole: `cellManager::doRecv` with the callbacks of
-- `tcp_server_notify`, from the bytes that a client sends to the messages that the hub sees.
mod Tests
use mathlib.Core.List.{append_cancel_right}
use linux_tcp_lib.Prelude.{
  ℕ, ◌+◌, ◌<◌, ◌≡◌, refl, sym, ap, ap₂, ◌∙◌, none, some, List, ◌++◌, append-nil, append_assoc,
  arith, length, drop, length-append, drop-append_le, drop-length-append, drop-drop,
}
use linux_tcp_lib.Frame.{Message, encode_all}
use linux_tcp_lib.Frame.Ready.{whole_frame}
use linux_tcp_lib.ServerNotify.{TcpServerHub, on_recv_data}
use linux_tcp_lib.ServerNotify.Delivers.{Delivers, stop, on_recv_data-Delivers}
use linux_tcp_lib.ServerNotify.Stream.{
  AllSendable, Accepts, hand_over, encode_all-Delivers, Delivers-append, Delivers-unique, delivered,
  Delivers-rest, on_recv_data-le,
}
use linux_tcp_lib.ClientCell.{ClientCell}
use linux_tcp_lib.DoRecv.{
  TNotify, ReadResult, RecvEnd, fine, closed, buffer_full, still_reading, in_callback, pending,
  recv_loop,
}
use linux_tcp_lib.DoRecv.Buffer.{IsBuffer}
use linux_tcp_lib.DoRecv.Feeds.{
  told, concat, Feeds, idle, feed, Returns, Receives, recv_loop-Receives,
}

module _ {H : Type 0} (hub : TcpServerHub H) where
  -- `tcp_server_notify` as the `tNotify` of the server; but for `OnRecvData` its callbacks only
  -- write a trace.
  unfoldable pub server_notify : TNotify H
  server_notify = record {
    on_connect = λ h clientid ip port. h;
    on_disconnect = λ h clientid. h;
    on_recv_data = λ h clientid bytes. on_recv_data hub clientid h (some bytes) (length bytes);
    on_error = λ h clientid errorid. h;
  }

  pub server_notify-Returns : (clientid : ℕ) → 0 < clientid → Returns server_notify clientid
  unfolding server_notify
  server_notify-Returns clientid id h bytes pos le =
      on_recv_data-le hub clientid h bytes id pos (omega arith)

  quiet : (clientid : ℕ) (e : RecvEnd) (h : H) → told server_notify clientid e h ≡ h
  unfolding server_notify
  quiet clientid fine h = refl
  quiet clientid closed h = refl
  quiet clientid buffer_full h = refl
  quiet clientid still_reading h = refl
  quiet clientid in_callback h = refl

  Feeds-Delivers :
      (clientid : ℕ) {h h' : H} {p p' : List ℕ} {pieces : List (List ℕ)}
      → 0 < clientid
      → Accepts hub clientid
      → whole_frame p ≡ none
      → Feeds server_notify clientid h p pieces h' p'
      → (m : ℕ) × Delivers hub clientid h (p ++ concat pieces) m h'
        × (p' ≡ drop m (p ++ concat pieces))
  unfolding concat server_notify
  Feeds-Delivers clientid {p = p} {pieces = pieces} id all none_whole (idle is keep same) =
      let e = ap (λ i. p ++ concat i) is ∙ append-nil p in
      (0, rw e (stop none_whole refl keep), same ∙ sym e)
  Feeds-Delivers clientid {h} {h'} {p} {p'} {pieces} id all none_whole
        (feed c cs k h₁ is pos ran le short f) =
      let whole = length-append p c in
      let d = delivered hub clientid (p ++ c) id (omega arith) (omega arith) ran in
      let (m, d', left) = Feeds-Delivers clientid id all (Delivers-rest hub clientid all d) f in
      let e : p ++ concat pieces ≡ p ++ c ++ concat cs =
        ap (λ i. p ++ concat i) is ∙ sym (append_assoc p c (concat cs)) in
      let cut = drop-append_le k (p ++ c) (concat cs) le in
      (
        k + m,
        rw e (Delivers-append hub clientid (concat cs) all d d'),
        rw e (left ∙ ap (drop m) (sym cut) ∙ drop-drop k m (p ++ c ++ concat cs)),
      )

  -- From the wire to the hub, for a hub that takes every message, a client descriptor that is not
  -- 0, and a sound buffer whose pending bytes begin with no whole frame: whatever the socket
  -- answers, if the pending bytes with those read by `doRecv` are the encodings of sendable
  -- messages and behind them the beginning of another, then the hub has been handed exactly those
  -- messages, in order, each once, and the bytes behind them are what is pending now.
  pub recv_loop-messages :
      (answers : List ReadResult) (incoming : List ℕ) (cell : ClientCell) (h : H) (r : List ℕ)
      (ms : List Message) (rest : List ℕ)
      → Accepts hub cell.client_fd
      → 0 < cell.client_fd
      → IsBuffer cell
      → whole_frame (pending cell) ≡ none
      → let out = recv_loop server_notify answers incoming cell h in
        r ++ out.incoming ≡ incoming
        → pending cell ++ r ≡ encode_all ms ++ rest
        → AllSendable ms
        → whole_frame rest ≡ none
        → (out.notify ≡ hand_over hub cell.client_fd h ms) × (pending out.cell ≡ rest)
  recv_loop-messages answers incoming cell h r ms rest all id v none_whole read total ok part =
      let clientid = cell.client_fd in
      let g =
        recv_loop-Receives server_notify clientid answers incoming cell h refl
          (server_notify-Returns clientid id) v in
      let (m, d, left) = Feeds-Delivers clientid id all none_whole g.feeds in
      let pieces_are : concat g.pieces ≡ r =
        append_cancel_right (concat g.pieces) r _ (g.stream ∙ sym read) in
      let bytes_are : pending cell ++ concat g.pieces ≡ encode_all ms ++ rest =
        ap (◌++◌ (pending cell)) pieces_are ∙ total in
      let d₁ = rw bytes_are at d in
      let (same_m, same_h) =
        Delivers-unique hub clientid d₁ (encode_all-Delivers hub clientid ms rest h all ok part) in
      (
        g.notify ∙ quiet clientid _ g.n' ∙ same_h,
        left ∙ ap₂ drop same_m bytes_are ∙ drop-length-append (encode_all ms) rest,
      )
