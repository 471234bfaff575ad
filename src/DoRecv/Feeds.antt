-- ===== src/DoRecv/Feeds.antt =====
-- What `doRecv` does, seen without the buffer: each piece of the stream that it reads is put behind
-- what the callback has left, and the callback is handed the whole.
use mathlib.Core.Path.{subst}
use linux_tcp_lib.Prelude.{
  take-append-drop-length, ℕ, ◌+◌, ◌-◌, ◌≤◌, ◌<◌, ◌≡◌, refl, sym, ap, ◌∙◌, ◌≢◌, inl, inr, Bool,
  false, some, List, [], ◌∷◌, ◌++◌, append_assoc, arith, ltb, leb, ◌==◌, if◌then◌else◌, Bool-cases,
  length, drop, length-append, length-take,
}
use linux_tcp_lib.ClientCell.{ClientCell}
use linux_tcp_lib.DoRecv.Buffer.{IsBuffer, length-pending, store_bytes-IsBuffer, consume-IsBuffer}
use linux_tcp_lib.DoRecv.{
  TNotify, ReadResult, ready, read_again, read_failed, RecvEnd, fine, closed, buffer_full,
  still_reading, in_callback, RecvOut, minus_two, consume, read_bytes, store_bytes, pending,
  after_callback, after_read, recv_loop,
}

unfoldable pub concat : List (List ℕ) → List ℕ
concat [] = []
concat (c ∷ cs) = c ++ concat cs

-- The fields of a cell that receiving has no business with.
pub record SameSend (c d : ClientCell) : Type 0 where
  pub client_fd : d.client_fd ≡ c.client_fd
  pub send_buf : d.send_buf ≡ c.send_buf
  pub send_read_pos : d.send_read_pos ≡ c.send_read_pos
  pub send_write_pos : d.send_write_pos ≡ c.send_write_pos
  pub events : d.events ≡ c.events

SameSend-refl : (c : ClientCell) → SameSend c c
SameSend-refl c = record {
  client_fd = refl;
  send_buf = refl;
  send_read_pos = refl;
  send_write_pos = refl;
  events = refl;
}

SameSend-trans : {a b c : ClientCell} → SameSend a b → SameSend b c → SameSend a c
SameSend-trans p q = record {
  client_fd = q.client_fd ∙ p.client_fd;
  send_buf = q.send_buf ∙ p.send_buf;
  send_read_pos = q.send_read_pos ∙ p.send_read_pos;
  send_write_pos = q.send_write_pos ∙ p.send_write_pos;
  events = q.events ∙ p.events;
}

consume-SameSend : (c : ClientCell) (k : ℕ) → SameSend c (consume c k)
unfolding consume
consume-SameSend c k = record {
  client_fd = ground arith;
  send_buf = ground arith;
  send_read_pos = ground arith;
  send_write_pos = ground arith;
  events = ground arith;
}

store_bytes-SameSend : (c : ClientCell) (bytes : List ℕ) → SameSend c (store_bytes c bytes)
unfolding store_bytes
store_bytes-SameSend c bytes = record {
  client_fd = refl;
  send_buf = refl;
  send_read_pos = refl;
  send_write_pos = refl;
  events = refl;
}

module _ {N : Type 0} (t : TNotify N) (clientid : ℕ) where
  -- The pieces come one after the other; between two calls the callback's state and what it has
  -- not taken stay as they are.
  pub data Feeds : N → List ℕ → List (List ℕ) → N → List ℕ → Type 0 where
    idle :
        {n n' : N} {p p' : List ℕ} {pieces : List (List ℕ)}
        → pieces ≡ []
        → n' ≡ n
        → p' ≡ p
        → Feeds n p pieces n' p'
    feed :
        {n n' : N} {p p' : List ℕ} {pieces : List (List ℕ)} (c : List ℕ) (cs : List (List ℕ))
        (k : ℕ) (n₁ : N)
        → pieces ≡ c ∷ cs
        → 0 < length c
        → t.on_recv_data n clientid (p ++ c) ≡ some (k, n₁)
        → k ≤ length (p ++ c)
        → length (p ++ c) ≤ 1048576
        → Feeds n₁ (drop k (p ++ c)) cs n' p'
        → Feeds n p pieces n' p'

  -- The callback returns, and takes no more than it is handed.
  abbrev pub Returns : Type 0
  Returns =
      (n : N) (bytes : List ℕ)
      → 0 < length bytes
      → length bytes ≤ 1048576
      → (k : ℕ) × (n' : N) × (t.on_recv_data n clientid bytes ≡ some (k, n')) × (k ≤ length bytes)

  -- The callback's object behind the loop: a full buffer is reported to it.
  abbrev pub told : RecvEnd → N → N
  told buffer_full n = t.on_error n clientid minus_two
  told fine n = n
  told closed n = n
  told still_reading n = n
  told in_callback n = n

  pub record Receives (cell : ClientCell) (n : N) (incoming : List ℕ) (out : RecvOut N)
      : Type 0 where
    pub pieces : List (List ℕ)
    pub n' : N
    pub feeds : Feeds n (pending cell) pieces n' (pending out.cell)
    pub stream : concat pieces ++ out.incoming ≡ incoming
    pub notify : out.notify ≡ told out.end n'
    pub buffer : IsBuffer out.cell
    pub returned : out.end ≢ in_callback
    pub same : SameSend cell out.cell

  -- Ending at once.
  ends :
      (cell : ClientCell) (n : N) (incoming : List ℕ) (e : RecvEnd)
      → IsBuffer cell
      → told e n ≡ n
      → e ≢ in_callback
      → Receives cell n incoming (record { cell = cell; notify = n; incoming = incoming; end = e })
  unfolding concat
  ends cell n incoming e v quiet ret = record {
    pieces = [];
    n' = n;
    feeds = idle refl refl refl;
    stream = refl;
    notify = sym quiet;
    buffer = v;
    returned = ret;
    same = SameSend-refl cell;
  }

  after_callback-Receives :
      (next : ClientCell → N → RecvOut N) (last : Bool) (cell : ClientCell) (n : N) (rest : List ℕ)
      → cell.client_fd ≡ clientid
      → IsBuffer cell
      → Receives cell n rest (next cell n)
      → Receives cell n rest (after_callback t next last cell n rest)
  unfolding after_callback concat
  after_callback-Receives next last cell n rest fd v later =
      elim (Bool-cases (leb 1048576 cell.recv_write_pos)) [
        | inl e ↦ rw e (record {
          pieces = [];
          n' = n;
          feeds = idle refl refl refl;
          stream = refl;
          notify = ap (λ i. t.on_error n i minus_two) fd;
          buffer = v;
          returned = λ q. cc;
          same = SameSend-refl cell;
        })
        | inr e ↦ elim (Bool-cases last) [
          | inl l ↦ rw (e, l) (ends cell n rest fine v refl (λ q. cc))
          | inr l ↦ rw (e, l) later
        ]
      ]

  in_front :
      (cell : ClientCell) (n : N) (rest : List ℕ) (bytes : List ℕ) (k : ℕ) (n₁ : N)
      (c₂ : ClientCell) (out : RecvOut N)
      → 0 < length bytes
      → t.on_recv_data n clientid (pending cell ++ bytes) ≡ some (k, n₁)
      → k ≤ length (pending cell ++ bytes)
      → length (pending cell ++ bytes) ≤ 1048576
      → pending c₂ ≡ drop k (pending cell ++ bytes)
      → SameSend cell c₂
      → Receives c₂ n₁ rest out
      → Receives cell n (bytes ++ rest) out
  unfolding concat
  in_front cell n rest bytes k n₁ c₂ out some_bytes ran le short left keeps g = record {
    pieces = bytes ∷ g.pieces;
    n' = g.n';
    feeds = feed bytes g.pieces k n₁ refl some_bytes ran le short (rw (← left) g.feeds);
    stream = append_assoc bytes (concat g.pieces) out.incoming ∙ ap (◌++◌ bytes) g.stream;
    notify = g.notify;
    buffer = g.buffer;
    returned = g.returned;
    same = SameSend-trans keeps g.same;
  }

  -- A piece in front of what the later rounds do.
  after_read-Receives :
      (next : ClientCell → N → RecvOut N) (cell : ClientCell) (n : N) (bytes rest : List ℕ)
      → cell.client_fd ≡ clientid
      → Returns
      → IsBuffer cell
      → cell.recv_write_pos + length bytes ≤ 1048576
      → ((c : ClientCell) (m : N)
          → c.client_fd ≡ clientid
          → IsBuffer c
          → Receives c m rest (next c m))
      → Receives cell n (bytes ++ rest) (after_read t next cell n bytes rest)
  unfolding after_read
  after_read-Receives next cell n [] rest fd back v fits later =
      ends cell n rest closed v refl (λ q. cc)
  after_read-Receives next cell n (b ∷ bs) rest fd back v fits later =
      let bytes = b ∷ bs in
      let c₁ = store_bytes cell bytes in
      let (v₁, p₁) = store_bytes-IsBuffer cell bytes v fits in
      let keeps = store_bytes-SameSend cell bytes in
      let size = length-pending c₁ v₁ in
      let whole : length (pending c₁) ≡ length (pending cell) + length bytes =
        ap length p₁ ∙ length-append (pending cell) bytes in
      let (k, n₁, ran, le) = back n (pending c₁) (omega arith) (omega arith) in
      let c₂ = consume c₁ k in
      let (v₂, p₂) = consume-IsBuffer c₁ k v₁ (omega arith) in
      let keeps' = SameSend-trans keeps (consume-SameSend c₁ k) in
      let fd₂ = keeps'.client_fd ∙ fd in
      let last = ltb (length bytes) (1048576 - cell.recv_write_pos) in
      let g = after_callback-Receives next last c₂ n₁ rest fd₂ v₂ (later c₂ n₁ fd₂ v₂) in
      let ran' = ap (λ i. t.on_recv_data n i (pending c₁)) fd ∙ ran in
      let nz : (length bytes == 0) ≡ false = ground arith in
      rw (nz, ran', after_read)
        (in_front cell n rest bytes k n₁ c₂ _ (omega arith)
          (ap (t.on_recv_data n clientid) (sym p₁) ∙ ran) (rw (← p₁) le) (rw (← p₁) (omega arith))
          (p₂ ∙ ap (drop k) p₁) keeps' g)

  read_bytes-fits :
      (cell : ClientCell) (k : ℕ) (incoming : List ℕ)
      → IsBuffer cell
      → cell.recv_write_pos + length (read_bytes cell k incoming) ≤ 1048576
  unfolding read_bytes
  read_bytes-fits cell k incoming v =
      let asked =
        if leb k (1048576 - cell.recv_write_pos) then k else 1048576 - cell.recv_write_pos in
      ground (arith, length-take asked incoming)

  read_bytes-prefix :
      (cell : ClientCell) (k : ℕ) (incoming : List ℕ)
      → let bytes = read_bytes cell k incoming in bytes ++ drop (length bytes) incoming ≡ incoming
  unfolding read_bytes
  read_bytes-prefix cell k incoming = take-append-drop-length _ incoming

  -- For a connection whose callback returns and takes no more than it is handed, and a sound
  -- buffer: whatever the socket answers, `doRecv` feeds the callback the pieces of the stream in
  -- order, each behind what was left before; the pieces and what is still unread make up the
  -- stream; the callback always returns, a full buffer is reported by `OnError`, the buffer stays
  -- sound, and the send side of the cell, its descriptor and its events are as they were.
  pub recv_loop-Receives :
      (answers : List ReadResult) (incoming : List ℕ) (cell : ClientCell) (n : N)
      → cell.client_fd ≡ clientid
      → Returns
      → IsBuffer cell
      → Receives cell n incoming (recv_loop t answers incoming cell n)
  unfolding recv_loop
  recv_loop-Receives [] incoming cell n fd back v =
      elim (Bool-cases (ltb cell.recv_write_pos 1048576)) [
        | inl e ↦ rw e (ends cell n incoming still_reading v refl (λ q. cc))
        | inr e ↦ rw e (ends cell n incoming fine v refl (λ q. cc))
      ]
  recv_loop-Receives (read_again ∷ answers) incoming cell n fd back v =
      elim (Bool-cases (ltb cell.recv_write_pos 1048576)) [
        | inl e ↦ rw (e, recv_loop) (recv_loop-Receives answers incoming cell n fd back v)
        | inr e ↦ rw (e, recv_loop) (ends cell n incoming fine v refl (λ q. cc))
      ]
  recv_loop-Receives (read_failed ∷ answers) incoming cell n fd back v =
      elim (Bool-cases (ltb cell.recv_write_pos 1048576)) [
        | inl e ↦ rw (e, recv_loop) (ends cell n incoming closed v refl (λ q. cc))
        | inr e ↦ rw (e, recv_loop) (ends cell n incoming fine v refl (λ q. cc))
      ]
  recv_loop-Receives (ready k ∷ answers) incoming cell n fd back v =
      let bytes = read_bytes cell k incoming in
      let rest = drop (length bytes) incoming in
      let g =
        after_read-Receives (recv_loop t answers rest) cell n bytes rest fd back v
          (read_bytes-fits cell k incoming v)
          (λ c m fd' v'. recv_loop-Receives answers rest c m fd' back v') in
      elim (Bool-cases (ltb cell.recv_write_pos 1048576)) [
        | inl e ↦
            rw (e, recv_loop)
              (subst
                (λ i. Receives cell n i (after_read t (recv_loop t answers rest) cell n bytes rest))
                (read_bytes-prefix cell k incoming) g)
        | inr e ↦ rw (e, recv_loop) (ends cell n incoming fine v refl (λ q. cc))
      ]
