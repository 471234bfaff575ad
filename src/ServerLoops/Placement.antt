-- ===== src/ServerLoops/Placement.antt =====
-- Each connection stands in the event loop that its descriptor chooses, and only there.
use native.Mathlib.Nat.{mod-lt}
use mathlib.Core.Path.{subst}
use mathlib.Core.Option.{some-injective, some-ne-none}
use linux_tcp_lib.Prelude.{
  ℕ, zero, suc, ◌+◌, ◌*◌, ◌%◌, ◌^◌, ◌<◌, ◌≡◌, refl, sym, ap, ap₂, ◌∙◌, ◌⊎◌, inl, inr, true, false,
  take_all, Option, none, some, List, [], ◌∷◌, ◌++◌, arith, ◌==◌, ==_iff, Bool-cases, length,
  get_elem?, set, length-set, get_elem?-lt, get_elem?-set, set-get_elem?,
}
use linux_tcp_lib.MessageQueue.{MessageQueue}
use linux_tcp_lib.ClientCell.{ClientCell, client_cell}
use linux_tcp_lib.DoRecv.{TNotify}
use linux_tcp_lib.CellManager.{
  CellTask, sending, CellManager, find, add_task, send_task, push_task, new_send_cell,
}
use linux_tcp_lib.CellManager.Cells.{IsCell, AllCells, find-assign}
use linux_tcp_lib.CellManager.Invariant.{IsManager, add_task-IsManager}
use linux_tcp_lib.ServerLoops.{
  SocketCall, socket_calls, loop_num, new_loops, Accepted, Garbage, WaitAnswer, wait_error,
  wait_timeout, woken, curr_cell_manager, handle_accept, run, narrowed, send_data,
}

-- A new connection is sound, whatever the memory it stands in held before.
client_cell-IsCell :
    (fd : ℕ) (g : Garbage) (ip : List ℕ) (port : ℕ)
    → IsCell fd (client_cell fd g.recv_buf g.send_buf g.events ip port)
unfolding client_cell
client_cell-IsCell fd g ip port = (
  refl,
  ([], record { read_in = omega arith; write_in = omega arith; room = omega arith; holds = refl }),
  record { ordered = omega arith; in_bounds = omega arith; low = omega arith },
)

module _ {N : Type 0} (i : MessageQueue CellTask) (t : TNotify N) (g : Garbage) where
  -- There is a loop; the loops are sound; and a connection stands in the loop that it belongs to.
  pub record IsServer (loops : List (CellManager i t)) : Type 0 where
    pub some_loop : 0 < length loops
    pub sound : (k : ℕ) (m : CellManager i t) → get_elem? loops k ≡ some m → IsManager i t m
    pub placed :
        (k fd : ℕ) (m : CellManager i t) (c : ClientCell)
        → get_elem? loops k ≡ some m
        → find m.cells fd ≡ some c
        → k ≡ fd % length loops

  pub new_loops-at :
      (q : i.Q) (n : N) (k j : ℕ) (m : CellManager i t)
      → get_elem? (new_loops i t g q n k) j ≡ some m
      → (m.cells ≡ []) × (m.cell_task ≡ q)
  unfolding new_loops
  new_loops-at q n zero j m e = absurd (some-ne-none m (sym e))
  new_loops-at q n (suc k) zero m e =
      let same = some-injective _ m e in
      (ap (λ x. x.cells) (sym same), ap (λ x. x.cell_task) (sym same))
  new_loops-at q n (suc k) (suc j) m e = new_loops-at q n k j m e

  pub length-new_loops : (q : i.Q) (n : N) (k : ℕ) → length (new_loops i t g q n k) ≡ k
  unfolding new_loops
  length-new_loops q n zero = refl
  length-new_loops q n (suc k) = omega (arith, length-new_loops q n k)

  -- The loops that the constructor makes are sound where `sysconf` knows the number of processors.
  pub new_loops-IsServer :
      (q : i.Q) (n : N) (cpu_n : ℕ)
      → i.IsValid q
      → IsServer (new_loops i t g q n (loop_num (some cpu_n)))
  unfolding loop_num find
  new_loops-IsServer q n cpu_n v = record {
    some_loop = omega (arith, length-new_loops q n (cpu_n * 2 + 2));
    sound = λ k m e.
        let (cells, queue) = new_loops-at q n (cpu_n * 2 + 2) k m e in
        record { queue = subst i.IsValid (sym queue) v; cells = subst AllCells (sym cells) tt };
    placed = λ k fd m c e f.
        let (cells, queue) = new_loops-at q n (cpu_n * 2 + 2) k m e in
        absurd (some-ne-none c (sym (subst (λ x. find x fd ≡ some c) cells f)));
  }

  -- Where `CurrCellManager` looks.
  pub curr_cell_manager_lem :
      (loops : List (CellManager i t)) (fd : ℕ)
      → 0 < length loops
      → (m : CellManager i t) × (get_elem? loops (fd % length loops) ≡ some m)
        × (curr_cell_manager i t g loops fd ≡ some (fd % length loops, m))
  unfolding curr_cell_manager
  curr_cell_manager_lem loops fd pos =
      let n = length loops in
      let (m, e) = get_elem?-lt loops (fd % n) (mod-lt fd pos) in
      let z : (n == 0) ≡ false = ground arith in (m, e, rw (z, e))

  -- Writing back a sound loop whose connections belong there.
  pub set-IsServer :
      (loops : List (CellManager i t)) (k : ℕ) (m : CellManager i t)
      → IsServer loops
      → IsManager i t m
      → ((fd : ℕ) (c : ClientCell) → find m.cells fd ≡ some c → k ≡ fd % length loops)
      → IsServer (set loops k m)
  set-IsServer loops k m v ok here = record {
    some_loop = omega (arith, length-set loops k m, v.some_loop);
    sound = λ j x e. elim (get_elem?-set loops k j m x e) [
      | inl (q, same) ↦ subst (λ y. IsManager i t y) same ok
      | inr old ↦ v.sound j x old
    ];
    placed = λ j fd x c e f. elim (get_elem?-set loops k j m x e) [
      | inl (q, same) ↦
          rw (length-set loops k m, sym q)
            (here fd c (subst (λ y. find y.cells fd ≡ some c) (sym same) f))
      | inr old ↦ rw (length-set loops k m) (v.placed j fd x c old f)
    ];
  }

  -- The connections of a loop after `addTask`: those before it, and the new one.
  pub add_task-placed :
      (n : ℕ) {k : ℕ} (m : CellManager i t) (cell : ClientCell) (j : ℕ) (c : ClientCell)
      → find (add_task i t m cell).cells j ≡ some c
      → ((d : ClientCell) → find m.cells j ≡ some d → k ≡ j % n)
      → k ≡ cell.client_fd % n
      → k ≡ j % n
  unfolding add_task push_task
  add_task-placed n m cell j c f old new = elim (Bool-cases (cell.client_fd == j)) [
    | inl q ↦ new ∙ ap (λ x. x % n) ((==_iff cell.client_fd j).0 q)
    | inr q ↦ old c (rw (find-assign m.cells cell.client_fd j cell, q) at f)
  ]

  handle_accept-IsServer :
      (loops : List (CellManager i t)) (a : Option Accepted)
      → IsServer loops
      → (loops' : List (CellManager i t)) × (calls : List SocketCall) × (handle_accept i t g loops a
          ≡ some (loops', calls))
        × IsServer loops'
        × (length loops' ≡ length loops)
  unfolding handle_accept client_cell socket_calls
  handle_accept-IsServer loops none v = (loops, [], refl, v, refl)
  handle_accept-IsServer loops (some a) v =
      let n = length loops in
      let fd = a.clientid in
      let k = fd % n in
      let (m, at, e) = curr_cell_manager_lem loops fd v.some_loop in
      let cell = client_cell fd g.recv_buf g.send_buf g.events a.ip a.port in
      let m' = add_task i t m cell in
      (
        set loops k m',
        socket_calls fd,
        rw (handle_accept, e) refl,
        set-IsServer loops k m' v
            (add_task-IsManager i t m cell (client_cell-IsCell fd g a.ip a.port) (v.sound k m at))
            (λ j c f. add_task-placed n m cell j c f (λ d h. v.placed k j m d at h) refl),
        length-set loops k m',
      )

  -- From a sound server, any sequence of wake-ups of the accepting thread keeps the server sound and
  -- the number of its loops: `CurrCellManager` never divides by 0, every connection is sound, and it
  -- stands only in the loop of the number of its descriptor modulo the number of loops.
  pub run-IsServer :
      (loops : List (CellManager i t)) (socket_fd : ℕ) (w : List WaitAnswer)
      → IsServer loops
      → (loops' : List (CellManager i t)) × (calls : List SocketCall) × (run i t g loops socket_fd w
          ≡ some (loops', calls))
        × IsServer loops'
        × (length loops' ≡ length loops)
  unfolding run
  run-IsServer loops s [] v = (loops, [], refl, v, refl)
  run-IsServer loops s (wait_error ∷ w) v = run-IsServer loops s w v
  run-IsServer loops s (wait_timeout ∷ w) v = run-IsServer loops s w v
  run-IsServer loops s (woken fd a ∷ w) v = elim (Bool-cases (fd == s)) [
    | inl q ↦
        let (l, calls, e, v', n) = handle_accept-IsServer loops a v in
        let (l', calls', e', v'', n') = run-IsServer l s w v' in
        (l', calls ++ calls', rw (run, q, e, e') refl, v'', n' ∙ n)
    | inr q ↦
        let (l', calls, e', v'', n') = run-IsServer loops s w v in
        (l', calls, rw (run, q, e') refl, v'', n')
  ]

  narrowed_small : (buf : List ℕ) → length buf + 1 < 2 ^ 31 → narrowed buf ≡ some buf
  unfolding narrowed
  narrowed_small buf lt = ground (arith, take_all (length buf % 2 ^ 32) buf (omega arith))

  -- What `sendTask` leaves for a client that is there.
  send_task-push :
      (m : CellManager i t) (k : ℕ) (bytes : List ℕ) (c : ClientCell)
      → find m.cells k ≡ some c
      → (send_task i t m k bytes).1
        ≡ record m { cell_task = (i.push m.cell_task (sending k (new_send_cell i t bytes))).1 }
  unfolding send_task
  send_task-push m k bytes c e =
      elim (Bool-cases (i.push m.cell_task (sending k (new_send_cell i t bytes))).0) [
        | inl f ↦ rw (e, send_task, f)
        | inr f ↦ rw (e, send_task, f)
      ]

  -- On a sound server, `SendData` of at most 2 ^ 31 - 2 bytes for a connection of loop `j`. If the
  -- queue of that loop takes the task with a copy of the bytes, that task then stands at its end, and
  -- no other loop and no connection changes; if it refuses, nothing changes.
  pub send_data-reaches :
      (loops : List (CellManager i t)) (j fd : ℕ) (m : CellManager i t) (c : ClientCell)
      (buf : List ℕ)
      → IsServer loops
      → get_elem? loops j ≡ some m
      → find m.cells fd ≡ some c
      → length buf + 1 < 2 ^ 31
      → let ct = sending fd (new_send_cell i t buf) in
        (loops' : List (CellManager i t)) × (send_data i t g loops fd buf ≡ some loops')
        × ((((i.push m.cell_task ct).0 ≡ true)
              × ((m' : CellManager i t) × (loops' ≡ set loops j m')
                  × (i.contents m'.cell_task ≡ i.contents m.cell_task ++ ct ∷ [])
                  × (m'.cells ≡ m.cells)))
            ⊎ (((i.push m.cell_task ct).0 ≡ false) × (loops' ≡ loops)))
  unfolding send_data
  send_data-reaches loops j fd m c buf v at has lt =
      let k = fd % length loops in
      let ct = sending fd (new_send_cell i t buf) in
      let m' : CellManager i t = record m { cell_task = (i.push m.cell_task ct).1 } in
      let pushed = send_task-push m fd buf c has in
      let (x, at', e) = curr_cell_manager_lem loops fd v.some_loop in
      let q : j ≡ k = v.placed j fd m c at has in
      let e' : curr_cell_manager i t g loops fd ≡ some (j, m) =
        e
        ∙ ap₂ (λ a b. some (a, b)) (sym q)
            (some-injective x m (sym at' ∙ ap (get_elem? loops) (sym q) ∙ at)) in
      (
        set loops j m',
        rw (send_data, e', narrowed_small buf lt) (ap (λ y. some (set loops j y)) pushed),
        elim (Bool-cases (i.push m.cell_task ct).0) [
          | inl f ↦
              inl (f, (m', refl, (i.push_accepts m.cell_task ct (v.sound j m at).queue f).1, refl))
          | inr f ↦ inr (
            f,
            ap (λ y. set loops j (record m { cell_task = y })) (i.push_refuses m.cell_task ct f)
                ∙ set-get_elem? loops j m at,
          )
        ],
      )
