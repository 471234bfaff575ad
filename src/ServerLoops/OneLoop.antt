-- ===== src/ServerLoops/OneLoop.antt =====
-- The whole server: the accepting thread, the callers of `SendData` and the rounds of the event
-- loops, in any order, each of them as one step. Here each loop has a state of its own for the
-- callbacks, where the loops of the code share one object; where connections stand hangs on neither.
use mathlib.Core.Path.{subst}
use mathlib.Core.Option.{some-injective, some-ne-none}
use linux_tcp_lib.Prelude.{
  ℕ, ◌%◌, ◌<◌, ◌≡◌, refl, sym, ap, ap₂, ◌∙◌, inl, inr, Option, none, some, List, arith, Bool-cases,
  Option-cases, length, get_elem?, set, length-set, get_elem?-set,
}
use linux_tcp_lib.MessageQueue.{MessageQueue}
use linux_tcp_lib.ClientCell.{ClientCell, client_cell}
use linux_tcp_lib.DoRecv.{TNotify}
use linux_tcp_lib.CellManager.{
  CellTask, CellManager, find, add_task, send_task, sending, new_send_cell,
}
use linux_tcp_lib.CellManager.Keys.{Within, Stays}
use linux_tcp_lib.EventLoop.{EpollEvent, round}
use linux_tcp_lib.EventLoop.Keys.{round-Stays}
use linux_tcp_lib.ServerLoops.{
  SocketCall, socket_calls, Accepted, Garbage, new_loops, curr_cell_manager, handle_accept,
  narrowed, send_data,
}
use linux_tcp_lib.ServerLoops.Placement.{
  curr_cell_manager_lem, add_task-placed, new_loops-at, length-new_loops,
}

module _ {N : Type 0} (i : MessageQueue CellTask) (t : TNotify N) (g : Garbage) where
  -- One call of `HandleAccept`, one of `SendData`, or one round of one event loop.
  pub data Step (loops : List (CellManager i t)) : List (CellManager i t) → Type 0 where
    accepts :
        {loops' : List (CellManager i t)} {calls : List SocketCall} (a : Option Accepted)
        → handle_accept i t g loops a ≡ some (loops', calls)
        → Step loops loops'
    sends :
        {loops' : List (CellManager i t)} (clientid : ℕ) (buf : List ℕ)
        → send_data i t g loops clientid buf ≡ some loops'
        → Step loops loops'
    runs :
        {m m' : CellManager i t} (k : ℕ) (events : List EpollEvent)
        → get_elem? loops k ≡ some m
        → round i t m events ≡ some m'
        → Step loops (set loops k m')

  -- From the `n` loops of a new server on.
  pub data Reach (q : i.Q) (notify : N) (n : ℕ) : List (CellManager i t) → Type 0 where
    fresh : Reach q notify n (new_loops i t g q notify n)
    later :
        {loops loops' : List (CellManager i t)}
        → Reach q notify n loops
        → Step loops loops'
        → Reach q notify n loops'

  -- Each connection stands in the loop of its descriptor.
  record IsPlaced (n : ℕ) (loops : List (CellManager i t)) : Type 0 where
    pub loop_count : length loops ≡ n
    pub placed :
        (k fd : ℕ) (m : CellManager i t) (c : ClientCell)
        → get_elem? loops k ≡ some m
        → find m.cells fd ≡ some c
        → k ≡ fd % n

  -- A loop written back whose connections are old or belong there.
  set-IsPlaced :
      (n : ℕ) (loops : List (CellManager i t)) (k : ℕ) (m : CellManager i t)
      → IsPlaced n loops
      → ((fd : ℕ) (c : ClientCell) → find m.cells fd ≡ some c → k ≡ fd % n)
      → IsPlaced n (set loops k m)
  set-IsPlaced n loops k m v here = record {
    loop_count = length-set loops k m ∙ v.loop_count;
    placed = λ j fd x c e f. elim (get_elem?-set loops k j m x e) [
      | inl (q, same) ↦ sym q ∙ here fd c (subst (λ y. find y.cells fd ≡ some c) (sym same) f)
      | inr old ↦ v.placed j fd x c old f
    ];
  }

  -- A loop written back that brings in no connection.
  Within-IsPlaced :
      (n : ℕ) (loops : List (CellManager i t)) (k : ℕ) (m m' : CellManager i t)
      → IsPlaced n loops
      → get_elem? loops k ≡ some m
      → Within m.cells m'.cells
      → IsPlaced n (set loops k m')
  Within-IsPlaced n loops k m m' v at kept = set-IsPlaced n loops k m' v (λ fd c f.
      elim (Option-cases (find m.cells fd)) [
        | inl e ↦ absurd (some-ne-none c (sym f ∙ kept fd e))
        | inr (d, e) ↦ v.placed k fd m d at e
      ])

  fresh-IsPlaced : (q : i.Q) (notify : N) (n : ℕ) → IsPlaced n (new_loops i t g q notify n)
  unfolding find
  fresh-IsPlaced q notify n = record {
    loop_count = length-new_loops i t g q notify n;
    placed = λ k fd m c e f.
        let (cells, queue) = new_loops-at i t g q notify n k m e in
        absurd (some-ne-none c (sym (subst (λ x. find x fd ≡ some c) cells f)));
  }

  send_task-Within :
      (m : CellManager i t) (fd : ℕ) (buf : List ℕ)
      → Within m.cells (send_task i t m fd buf).1.cells
  unfolding send_task
  send_task-Within m fd buf k e = elim (Option-cases (find m.cells fd)) [
    | inl none_there ↦ rw (send_task, none_there) e
    | inr (c, there) ↦
        elim (Bool-cases (i.push m.cell_task (sending fd (new_send_cell i t buf))).0) [
          | inl f ↦ rw (send_task, there, f) e
          | inr f ↦ rw (send_task, there, f) e
        ]
  ]

  handle_accept-IsPlaced :
      (n : ℕ) (loops : List (CellManager i t)) (a : Accepted)
      → 0 < n
      → IsPlaced n loops
      → (loops₁ : List (CellManager i t)) × (calls₁ : List SocketCall) × (handle_accept i t g loops
            (some a)
          ≡ some (loops₁, calls₁))
        × IsPlaced n loops₁
  unfolding handle_accept client_cell socket_calls
  handle_accept-IsPlaced n loops a pos v =
      let fd = a.clientid in
      let k = fd % length loops in
      let (m, at, e) = curr_cell_manager_lem i t g loops fd (omega (arith, v.loop_count)) in
      let cell = client_cell fd g.recv_buf g.send_buf g.events a.ip a.port in
      (
        set loops k (add_task i t m cell),
        socket_calls fd,
        rw (handle_accept, e) refl,
        set-IsPlaced n loops k (add_task i t m cell) v (λ j c f.
            add_task-placed i t g n m cell j c f (λ d h. v.placed k j m d at h)
              (ap (λ x. fd % x) v.loop_count)),
      )

  Step-IsPlaced :
      {n : ℕ} {loops loops' : List (CellManager i t)}
      → 0 < n
      → Step loops loops'
      → IsPlaced n loops
      → IsPlaced n loops'
  unfolding handle_accept send_data
  Step-IsPlaced pos (accepts none e) v = subst (IsPlaced _) (ap (λ r. r.0) (some-injective _ _ e)) v
  Step-IsPlaced {n} {loops} pos (accepts (some a) e) v =
      let (loops₁, calls₁, e₁, v₁) = handle_accept-IsPlaced n loops a pos v in
      subst (IsPlaced n) (ap (λ r. r.0) (some-injective (loops₁, calls₁) _ (sym e₁ ∙ e))) v₁
  Step-IsPlaced {n} {loops} {loops'} pos (sends fd buf e) v =
      let k = fd % length loops in
      let (m, at, e₁) = curr_cell_manager_lem i t g loops fd (omega (arith, v.loop_count)) in
      elim (Option-cases (narrowed buf)) [
        | inl none_fit ↦ elim (Option-cases (find m.cells fd)) [
          | inl away ↦
              let ran : send_data i t g loops fd buf ≡ some loops =
                rw (send_data, e₁, none_fit, away) refl in
              subst (IsPlaced n) (some-injective loops loops' (sym ran ∙ e)) v
          | inr (c, there) ↦
              let ran : send_data i t g loops fd buf ≡ none =
                rw (send_data, e₁, none_fit, there) refl in
              absurd (some-ne-none loops' (sym e ∙ ran))
        ]
        | inr (bytes, fit) ↦
            let loops₁ = set loops k (send_task i t m fd bytes).1 in
            let ran : send_data i t g loops fd buf ≡ some loops₁ = rw (send_data, e₁, fit) refl in
            subst (IsPlaced n) (some-injective loops₁ loops' (sym ran ∙ e)) (
              Within-IsPlaced n loops k m (send_task i t m fd bytes).1 v at
                (send_task-Within m fd bytes))
      ]
  Step-IsPlaced {n} {loops} pos (runs {m} {m'} k events at e) v =
      Within-IsPlaced n loops k m m' v at (subst (Stays i t m) e (round-Stays i t m events))

  Reach-IsPlaced :
      {q : i.Q} {notify : N} {n : ℕ} {loops : List (CellManager i t)}
      → 0 < n
      → Reach q notify n loops
      → IsPlaced n loops
  Reach-IsPlaced {q} {notify} {n} pos fresh = fresh-IsPlaced q notify n
  Reach-IsPlaced pos (later before step) = Step-IsPlaced pos step (Reach-IsPlaced pos before)

  -- In every state of a server with event loops, whatever the peers, the kernel and the callbacks
  -- do: a descriptor under which a connection stands in the loops `j` and `k` has one loop, that of
  -- its number modulo the number of loops, where `SendData` looks for it.
  pub one_loop :
      {q : i.Q} {notify : N} {n : ℕ} {loops : List (CellManager i t)} (j k fd : ℕ)
      {m m' : CellManager i t} {c c' : ClientCell}
      → 0 < n
      → Reach q notify n loops
      → get_elem? loops j ≡ some m
      → find m.cells fd ≡ some c
      → get_elem? loops k ≡ some m'
      → find m'.cells fd ≡ some c'
      → (j ≡ k) × (curr_cell_manager i t g loops fd ≡ some (j, m))
  one_loop {loops} j k fd {m} {m'} {c} {c'} pos r at has at' has' =
      let v = Reach-IsPlaced pos r in
      let here = v.placed j fd m c at has in
      let (x, at₁, e) = curr_cell_manager_lem i t g loops fd (omega (arith, v.loop_count)) in
      let q : j ≡ fd % length loops = here ∙ ap (λ y. fd % y) (sym v.loop_count) in
      (
        here ∙ sym (v.placed k fd m' c' at' has'),
        e
            ∙ ap₂ (λ a b. some (a, b)) (sym q)
                (some-injective x m (sym at₁ ∙ ap (get_elem? loops) (sym q) ∙ at)),
      )
