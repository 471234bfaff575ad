-- ===== src/Reuse/Tracking.antt =====
-- The descriptors of the connections against the map of connections, over the interleaved steps.
use linux_tcp_lib.Prelude.{
  or-false, ℕ, ◌≡◌, refl, sym, ap, ◌∙◌, ◌≢◌, inl, inr, Bool, true, false, Option, none, some, arith,
  ◌==◌, if◌then◌else◌, ==_iff, Bool-cases,
}
use mathlib.Core.Path.{subst}
use mathlib.Core.Option.{some-injective, some-ne-none}
use linux_tcp_lib.MessageQueue.{MessageQueue}
use linux_tcp_lib.ClientCell.{ClientCell, destroy}
use linux_tcp_lib.DoRecv.{TNotify}
use linux_tcp_lib.CellManager.{
  CellTask, added, CellMap, find, assign, erase, add_task, del_task, handle_add, handle_del,
}
use linux_tcp_lib.CellManager.Cells.{find-assign, find-erase}
use linux_tcp_lib.Reuse.{
  outside, cell_closed, cell_erased, DelPc, with_open, Sharing, accept_cell, del_client_cell,
  erase_cell, notify_disconnect, DelStep, accepts, closes, erases, notifies, Run, done, step,
  is_closing, reuses, any_reuses,
}

unfoldable pub has : Option ClientCell → Bool
has none = false
has (some cell) = true

-- Every cell stands under its descriptor.
abbrev pub Keyed : CellMap → Type 0
Keyed m = (j : ℕ) (c : ClientCell) → find m j ≡ some c → c.client_fd ≡ j

assign-Keyed : (m : CellMap) (c : ClientCell) → Keyed m → Keyed (assign m c.client_fd c)
assign-Keyed m c v j d e =
    let h : (if c.client_fd == j then some c else find m j) ≡ some d =
      sym (find-assign m c.client_fd j c) ∙ e in
    elim (Bool-cases (c.client_fd == j)) [
      | inl q ↦
          ap (λ x. x.client_fd) (sym (some-injective c d (rw q at h))) ∙ (==_iff c.client_fd j).0 q
      | inr q ↦ v j d (rw q at h)
    ]

erase-Keyed : (m : CellMap) (k : ℕ) → Keyed m → Keyed (erase m k)
erase-Keyed m k v j d e =
    let h : (if k == j then none else find m j) ≡ some d = sym (find-erase m k j) ∙ e in
    elim (Bool-cases (k == j)) [
      | inl q ↦ absurd (some-ne-none d (sym (rw q at h)))
      | inr q ↦ v j d (rw q at h)
    ]

-- The cells against the open descriptors: they agree outside a deletion, and but for the client
-- that is being deleted.
abbrev pub Agree : CellMap → (ℕ → Bool) → DelPc → Type 0
Agree cells is_open pc =
    (j : ℕ) → is_open j ≡ (if is_closing pc j then false else has (find cells j))

assign-Agree :
    (m : CellMap) (is_open : ℕ → Bool) (pc : DelPc) (c : ClientCell)
    → is_closing pc c.client_fd ≡ false
    → Agree m is_open pc
    → Agree (assign m c.client_fd c) (with_open is_open c.client_fd true) pc
unfolding with_open has
assign-Agree m is_open pc c new v j = elim (Bool-cases (c.client_fd == j)) [
  | inl q ↦
      let h : is_closing pc j ≡ false =
        subst (λ k. is_closing pc k ≡ false) ((==_iff c.client_fd j).0 q) new in
      rw (h, find-assign m c.client_fd j c, q) refl
  | inr q ↦ rw (find-assign m c.client_fd j c, q) (v j)
]

close-Agree :
    (m : CellMap) (is_open : ℕ → Bool) (k : ℕ)
    → Agree m is_open outside
    → Agree m (with_open is_open k false) (cell_closed k)
unfolding with_open is_closing
close-Agree m is_open k v j = elim (Bool-cases (k == j)) [ inl q ↦ rw q refl | inr q ↦ rw q (v j) ]

erase-Agree :
    (m : CellMap) (is_open : ℕ → Bool) (k : ℕ)
    → Agree m is_open (cell_closed k)
    → Agree (erase m k) is_open (cell_erased k)
unfolding is_closing has
erase-Agree m is_open k v j = elim (Bool-cases (k == j)) [
  | inl q ↦ v j ∙ rw (find-erase m k j, q) refl
  | inr q ↦ v j ∙ rw (find-erase m k j, q) refl
]

module _ {N : Type 0} (i : MessageQueue CellTask) (t : TNotify N) where
  pub record Tracked (s : Sharing i t) : Type 0 where
    pub keyed : Keyed s.manager.cells
    pub agree : Agree s.manager.cells s.is_open s.pc

  DelStep-Tracked :
      {s s₁ : Sharing i t} (m : DelStep i t s s₁) → reuses i t m ≡ false → Tracked s → Tracked s₁
  unfolding reuses accept_cell add_task del_client_cell erase_cell notify_disconnect
  DelStep-Tracked {s = s} (accepts cell fresh) new v = record {
    keyed = assign-Keyed s.manager.cells cell v.keyed;
    agree = assign-Agree s.manager.cells s.is_open s.pc cell new v.agree;
  }
  DelStep-Tracked {s = s} (closes k cell at found ran) new v = record {
    keyed = v.keyed;
    agree = rw (v.keyed k cell found) (
        close-Agree s.manager.cells s.is_open k
          (subst (Agree s.manager.cells s.is_open) at v.agree));
  }
  DelStep-Tracked {s = s} (erases k at) new v = record {
    keyed = erase-Keyed s.manager.cells k v.keyed;
    agree =
        erase-Agree s.manager.cells s.is_open k
          (subst (Agree s.manager.cells s.is_open) at v.agree);
  }
  DelStep-Tracked {s = s} (notifies k at) new v = record {
    keyed = v.keyed;
    agree = subst (Agree s.manager.cells s.is_open) at v.agree;
  }

  -- In a run of a tracked state that gives no new connection the descriptor that `handleDel` has
  -- closed and not yet erased, the state stays tracked: every cell stands under its descriptor, and
  -- the descriptors with a cell are the open ones, but for the one that is being deleted.
  pub run-Tracked :
      {s s₁ : Sharing i t} (r : Run i t s s₁) → any_reuses i t r ≡ false → Tracked s → Tracked s₁
  unfolding any_reuses
  run-Tracked done calm v = v
  run-Tracked (step m r) calm v =
      let (first, later) = or-false (reuses i t m) (any_reuses i t r) calm in
      run-Tracked r later (DelStep-Tracked m first v)

  -- In a tracked state outside `handleDel`, with a client whose cell can be freed, the client can be
  -- deleted while its descriptor is given to a new connection, and then the new connection is lost:
  -- its descriptor stays open with no cell, its task to be added is queued, the callbacks have
  -- heard of one disconnection, and `handleAdd` only queues a deletion, which does nothing.
  pub reused-lost :
      (s : Sharing i t) (old new : ClientCell)
      → Tracked s
      → s.pc ≡ outside
      → find s.manager.cells new.client_fd ≡ some old
      → destroy old ≢ none
      → let k = new.client_fd in
        (s₁ : Sharing i t) × Run i t s s₁
        × (s₁.pc ≡ outside)
        × (s₁.is_open k ≡ true)
        × (find s₁.manager.cells k ≡ none)
        × (s₁.manager.notify ≡ t.on_disconnect s.manager.notify k)
        × (s₁.manager.cell_task ≡ (i.push s.manager.cell_task (added k)).1)
        × (handle_add i t s₁.manager k ≡ del_task i t s₁.manager k)
        × (handle_del i t (del_task i t s₁.manager k) k ≡ some (del_task i t s₁.manager k))
  unfolding accept_cell add_task del_client_cell erase_cell notify_disconnect with_open del_task
      handle_add handle_del
  reused-lost s old new v at found ran =
      let k = new.client_fd in
      let same : old.client_fd ≡ k = v.keyed k old found in
      let s₁ : Sharing i t = del_client_cell i t s k old in
      let s₂ : Sharing i t = accept_cell i t s₁ new in
      let s₃ : Sharing i t = erase_cell i t s₂ k in
      let free : s₁.is_open k ≡ false = let yes = (==_iff old.client_fd k).1 same in rw yes refl in
      let gone : find s₃.manager.cells k ≡ none = find-erase s₂.manager.cells k k ∙ ground arith in
      (
        notify_disconnect i t s₃ k,
        step (closes k old at found ran)
            (step (accepts new free) (step (erases k refl) (step (notifies k refl) done))),
        refl,
        ground arith,
        gone,
        refl,
        refl,
        rw (gone, handle_add) refl,
        rw (gone, handle_del) refl,
      )
