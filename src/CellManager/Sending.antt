-- ===== src/CellManager/Sending.antt =====
-- The way of a message from `sendTask` to the socket.
use linux_tcp_lib.Prelude.{
  ℕ, ◌-◌, ◌≡◌, sym, ap, ◌∙◌, ◌≢◌, ◌⊎◌, inl, inr, false, none, some, List, [], ◌∷◌, ◌++◌, append-nil,
  append_assoc, arith, ◌==◌, if◌then◌else◌, Bool-cases, Option-cases, length, take_all,
}
use linux_tcp_lib.Limits.{s_ok, tcp_server_client_closed, tcp_server_push_cache_failed}
use linux_tcp_lib.MessageQueue.{MessageQueue}
use linux_tcp_lib.ClientCell.{SendCell, ClientCell, is_full, append}
use linux_tcp_lib.ClientCell.Ring.{IsRing, is_full_iff, append-IsRing}
use linux_tcp_lib.DoSend.{Writer, unsent}
use linux_tcp_lib.DoSend.Conserves.{unsent_all, do_send-Sends}
use linux_tcp_lib.DoRecv.{TNotify}
use linux_tcp_lib.CellManager.{
  CellTask, CellMap, sending, find, assign, CellManager, new_send_cell, send_task, handle_send,
  do_send,
}
use linux_tcp_lib.CellManager.Cells.{find-assign}

unsent_all-snoc :
    (cs : List SendCell) (sc : SendCell) → unsent_all (cs ++ sc ∷ []) ≡ unsent_all cs ++ unsent sc
unfolding unsent_all
unsent_all-snoc [] sc = append-nil (unsent sc)
unsent_all-snoc (c ∷ cs) sc =
    ap (◌++◌ (unsent c)) (unsent_all-snoc cs sc) ∙ sym (append_assoc (unsent c) _ _)

pub not_full :
    (c : ClientCell) (cs : List SendCell) → IsRing c cs → length cs ≢ 1048575 → is_full c ≡ false
not_full c cs v ne = elim (Bool-cases (is_full c)) [
  | inl e ↦ absurd (ne ((is_full_iff c cs v).0 e))
  | inr e ↦ e
]

self {ℓ} : {A : Type ℓ} (k : ℕ) (x y : A) → (if k == k then x else y) ≡ x
self k x y = ground arith

module _ {N : Type 0} (i : MessageQueue CellTask) (t : TNotify N) where
  unsent-new_send_cell : (bytes : List ℕ) → unsent (new_send_cell i t bytes) ≡ bytes
  unfolding unsent new_send_cell
  unsent-new_send_cell bytes = take_all (length bytes - 0) bytes (omega arith)

  abbrev with_queue : CellManager i t → i.Q → CellManager i t
  with_queue m q = record m { cell_task = q }

  abbrev with_cells : CellManager i t → CellMap → CellManager i t
  with_cells m cells = record m { cells = cells }

  -- What `sendTask` answers on a loop with a sound queue. For a client that is not in the map it is
  -- CLIENT_CLOSED, and nothing changes. For a client in the map it is OK, and one task with a copy
  -- of the bytes stands behind the others; or it is PUSH_CACHE_FAILED, and nothing changes.
  pub send_task-answers :
      (m : CellManager i t) (k : ℕ) (bytes : List ℕ)
      → i.IsValid m.cell_task
      → let (code, m') = send_task i t m k bytes in
        let ct = sending k (new_send_cell i t bytes) in
        ((find m.cells k ≡ none) × (code ≡ tcp_server_client_closed) × (m' ≡ m))
        ⊎ (((c : ClientCell) × (find m.cells k ≡ some c))
            × (((code ≡ s_ok)
                  × (i.contents m'.cell_task ≡ i.contents m.cell_task ++ ct ∷ [])
                  × (m'.cells ≡ m.cells))
                ⊎ ((code ≡ tcp_server_push_cache_failed) × (m' ≡ m))))
  unfolding send_task
  send_task-answers m k bytes v = elim (Option-cases (find m.cells k)) [
    | inl e ↦ inl (e, rw (e, send_task), rw (e, send_task))
    | inr (c, e) ↦
        let ct = sending k (new_send_cell i t bytes) in
        elim (Bool-cases (i.push m.cell_task ct).0) [
          | inl f ↦ inr (
            (c, e),
            inl (
              rw (e, send_task, f),
              rw (e, send_task, f) (i.push_accepts m.cell_task ct v f).1,
              rw (e, send_task, f),
            ),
          )
          | inr f ↦
              let same = ap (λ q. with_queue m q) (i.push_refuses m.cell_task ct f) in
              inr ((c, e), inr (rw (e, send_task, f), rw (e, send_task, f) same))
        ]
  ]

  -- A message for a client whose ring is full is dropped: the event loop is as it was, so the
  -- callbacks are not told and no task to delete the client is made. A sound ring of 1048575
  -- messages is full.
  pub handle_send-full :
      (m : CellManager i t) (k : ℕ) (sc : SendCell) (c : ClientCell) (cs : List SendCell)
      → find m.cells k ≡ some c
      → IsRing c cs
      → length cs ≡ 1048575
      → handle_send i t m k sc ≡ m
  unfolding handle_send
  handle_send-full m k sc c cs e v full = rw (e, handle_send, (is_full_iff c cs v).1 full)

  -- For a client with a sound ring that is not full: the bytes of a message that `handleSend` puts
  -- into the ring come behind those that are still to be sent. When `doSend` has then run, whatever
  -- the socket answers, the bytes that it wrote with those still to send make up the bytes that
  -- were to be sent before, followed by those of the message.
  pub handle_send-do_send :
      (m : CellManager i t) (k : ℕ) (bytes : List ℕ) (c : ClientCell) (cs : List SendCell)
      (socket : Writer)
      → find m.cells k ≡ some c
      → IsRing c cs
      → length cs ≢ 1048575
      → (m' : CellManager i t) × (sent : List ℕ) × (c' : ClientCell) × (cs' : List SendCell)
        × (do_send i t (handle_send i t m k (new_send_cell i t bytes)) k socket ≡ some (m', sent))
        × (find m'.cells k ≡ some c')
        × IsRing c' cs'
        × (sent ++ unsent_all cs' ≡ unsent_all cs ++ bytes)
  unfolding handle_send do_send
  handle_send-do_send m k bytes c cs socket e v ne =
      let sc = new_send_cell i t bytes in
      let room : is_full c ≡ false = not_full c cs v ne in
      let found : find (assign m.cells k (append c sc)) k ≡ some (append c sc) =
        find-assign m.cells k k (append c sc) ∙ self k (some (append c sc)) _ in
      let g = do_send-Sends socket (append c sc) (cs ++ sc ∷ []) (append-IsRing c cs sc v room) in
      let cells = assign m.cells k (append c sc) in
      let put_in : handle_send i t m k sc ≡ with_cells m cells = rw (e, handle_send, room) in
      let sent_out : do_send i t (with_cells m cells) k socket
          ≡ some (with_cells m (assign cells k g.cell'), g.more) =
        rw (found, do_send, g.result) in
      (
        with_cells m (assign cells k g.cell'),
        g.more,
        g.cell',
        g.cs',
        ap (λ x. do_send i t x k socket) put_in ∙ sent_out,
        find-assign cells k k g.cell' ∙ self k (some g.cell') _,
        g.ring,
        g.bytes ∙ unsent_all-snoc cs sc ∙ ap (◌++◌ (unsent_all cs)) (unsent-new_send_cell bytes),
      )
