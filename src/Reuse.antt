-- ===== src/Reuse.antt =====
-- base/src/tcp_server/cell_manager.cpp, `handleDel` and `delClientCell` in the thread of an event
-- loop, interleaved with `addTask`, which the accepting thread calls from HandleAccept in
-- base/src/tcp_server/server.cpp. Each access to the map of connections is one step.
pub mod Tracking
mod Tests
use linux_tcp_lib.Prelude.{
  List-cases, take-nil, take-take, take-split, take-append-drop-length, ℕ, zero, suc, ◌+◌, ◌-◌, ◌*◌,
  ◌/◌, ◌%◌, ◌^◌, ◌≤◌, ◌<◌, ◌≡◌, refl, sym, ap, ap₂, ◌∙◌, ◌≢◌, ◌↔◌, ◌⊎◌, inl, inr, Bool, true, false,
  not, ◌&&◌, ◌||◌, Option, none, some, List, [], ◌∷◌, ◌++◌, map, append-nil, append_assoc, arith,
  ltb, leb, ◌==◌, if◌then◌else◌, ltb→lt, lt→ltb, leb→le, ==_iff, tests, Bool-cases, Option-cases,
  length, get_or, take, drop, length-append, take-append-drop, length-take, length-drop, take_all,
  drop_all, take-append_le, drop-append_le, take-length-append, drop-length-append, drop-nil,
  drop-drop, get_or-append_lt, get_elem?, set, length-set, get_elem?-set_self, get_elem?-set_ne,
  get_elem?-lt, get_elem?-set, set-get_elem?, get_elem?-append_lt, get_elem?-append_self, take-suc,
}
use linux_tcp_lib.MessageQueue.{MessageQueue}
use linux_tcp_lib.ClientCell.{ClientCell, destroy}
use linux_tcp_lib.DoRecv.{TNotify}
use linux_tcp_lib.CellManager.{CellTask, epoll_del, close_fd, find, erase, CellManager, add_task}

-- Where the loop is: outside `handleDel`, behind `delClientCell` for a client, behind the `erase`.
pub data DelPc : Type 0 where
  outside : DelPc
  cell_closed : ℕ → DelPc
  cell_erased : ℕ → DelPc

-- The client that has been closed and not yet erased.
unfoldable pub is_closing : DelPc → ℕ → Bool
is_closing outside j = false
is_closing (cell_closed k) j = k == j
is_closing (cell_erased k) j = false

-- The descriptors that the kernel holds open, with one opened or closed.
unfoldable pub with_open : (ℕ → Bool) → ℕ → Bool → ℕ → Bool
with_open is_open k b j = if k == j then b else is_open j

module _ {N : Type 0} (i : MessageQueue CellTask) (t : TNotify N) where
  pub record Sharing : Type 0 where
    pub manager : CellManager i t
    pub is_open : ℕ → Bool
    pub pc : DelPc

  -- `accept4` has answered the descriptor of the new cell, which `addTask` enters.
  unfoldable pub accept_cell : Sharing → ClientCell → Sharing
  accept_cell s cell = record s {
    manager = add_task i t s.manager cell;
    is_open = with_open s.is_open cell.client_fd true;
  }

  -- `delClientCell`.
  unfoldable pub del_client_cell : Sharing → ℕ → ClientCell → Sharing
  del_client_cell s clientid cell =
      let m : CellManager i t = s.manager in
      record s {
        manager = record m {
          calls = m.calls ++ epoll_del cell.client_fd ∷ close_fd cell.client_fd ∷ [];
        };
        is_open = with_open s.is_open cell.client_fd false;
        pc = cell_closed clientid;
      }

  -- `m_Cell.erase(ct->clientid)`.
  unfoldable pub erase_cell : Sharing → ℕ → Sharing
  erase_cell s clientid =
      let m : CellManager i t = s.manager in
      record s { manager = record m { cells = erase m.cells clientid }; pc = cell_erased clientid }

  -- `m_TNotify->OnDisconnect(ct->clientid)`.
  unfoldable pub notify_disconnect : Sharing → ℕ → Sharing
  notify_disconnect s clientid =
      let m : CellManager i t = s.manager in
      record s { manager = record m { notify = t.on_disconnect m.notify clientid }; pc = outside }

  -- The kernel answers `accept4` with a descriptor that is not open.
  pub data DelStep : Sharing → Sharing → Type 0 where
    accepts :
        {s : Sharing} (cell : ClientCell)
        → s.is_open cell.client_fd ≡ false
        → DelStep s (accept_cell s cell)
    closes :
        {s : Sharing} (clientid : ℕ) (cell : ClientCell)
        → s.pc ≡ outside
        → find s.manager.cells clientid ≡ some cell
        → destroy cell ≢ none
        → DelStep s (del_client_cell s clientid cell)
    erases :
        {s : Sharing} (clientid : ℕ)
        → s.pc ≡ cell_closed clientid
        → DelStep s (erase_cell s clientid)
    notifies :
        {s : Sharing} (clientid : ℕ)
        → s.pc ≡ cell_erased clientid
        → DelStep s (notify_disconnect s clientid)

  pub data Run : Sharing → Sharing → Type 0 where
    done : {s : Sharing} → Run s s
    step : {s s₁ s₂ : Sharing} → DelStep s s₁ → Run s₁ s₂ → Run s s₂

  -- Whether the kernel gives out a descriptor that has been closed and not yet erased.
  unfoldable pub reuses : {s s₁ : Sharing} → DelStep s s₁ → Bool
  unfolding is_closing
  reuses {s = s} (accepts cell fresh) = is_closing s.pc cell.client_fd
  reuses (closes clientid cell at found ran) = false
  reuses (erases clientid at) = false
  reuses (notifies clientid at) = false

  unfoldable pub any_reuses : {s s₁ : Sharing} → Run s s₁ → Bool
  unfolding reuses
  any_reuses done = false
  any_reuses (step m r) = reuses m || any_reuses r
