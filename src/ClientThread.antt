-- ===== src/ClientThread.antt =====
-- base/src/tcp_client/tcpClient.cpp: `Start` and `Stop` of the client, with the thread that runs
-- `OnRun`; and `Close`, which both threads call, as a step for each access to the socket.
pub mod Closes
pub mod Restarts
mod Tests
use linux_tcp_lib.Prelude.{
  List-cases, take-nil, take-take, take-split, take-append-drop-length, ℕ, zero, suc, ◌+◌, ◌-◌, ◌*◌,
  ◌/◌, ◌%◌, ◌^◌, ◌≤◌, ◌<◌, ◌≡◌, refl, sym, ap, ap₂, ◌∙◌, ◌≢◌, ◌↔◌, ◌⊎◌, inl, inr, Bool, true, false,
  not, ◌&&◌, ◌||◌, Option, none, some, List, [], ◌∷◌, ◌++◌, map, append-nil, append_assoc, arith,
  ltb, leb, ◌==◌, if◌then◌else◌, ltb→lt, lt→ltb, leb→le, ==_iff, tests, Bool-cases, Option-cases,
  length, get_or, take, drop, length-append, take-append-drop, length-take, length-drop, take_all,
  drop_all, take-append_le, drop-append_le, take-length-append, drop-length-append, drop-nil,
  drop-drop, get_or-append_lt, get_elem?, set, length-set, get_elem?-set_self, get_elem?-set_ne,
  get_elem?-lt, get_elem?-set, set-get_elem?, get_elem?-append_lt, get_elem?-append_self, take-suc,
}
use linux_tcp_lib.TcpClient.{TCliNotify, EasyTcpClient, close}

-- Where a thread is in `Close`: in front of its test, in front of `close(_sock)`, in front of the
-- assignment to `_sock`, in front of the last two lines, or behind them.
pub data ClosePc : Type 0 where
  testing : ClosePc
  closing : ClosePc
  clearing : ClosePc
  telling : ClosePc
  finished : ClosePc

module _ {N : Type 0} (t : TCliNotify N) where
  -- `close(_sock)` reads the member again; the system refuses INVALID_SOCKET.
  unfoldable pub close_sock : EasyTcpClient N → EasyTcpClient N
  close_sock c = elim c.sock [ none ↦ c | some fd ↦ record c { closed = c.closed ++ fd ∷ [] } ]

  unfoldable pub clear_sock : EasyTcpClient N → EasyTcpClient N
  clear_sock c = record c { sock = none }

  -- `_isConnect = false` and `OnDisconnect`.
  unfoldable pub tell_disconnect : EasyTcpClient N → EasyTcpClient N
  tell_disconnect c = record c { is_connect = false; notify = t.on_disconnect c.notify }

  -- One thread.
  pub data CloseStep : EasyTcpClient N → ClosePc → EasyTcpClient N → ClosePc → Type 0 where
    finds_socket : {c : EasyTcpClient N} (fd : ℕ) → c.sock ≡ some fd → CloseStep c testing c closing
    finds_none : {c : EasyTcpClient N} → c.sock ≡ none → CloseStep c testing c telling
    closes : {c : EasyTcpClient N} → CloseStep c closing (close_sock c) clearing
    clears : {c : EasyTcpClient N} → CloseStep c clearing (clear_sock c) telling
    tells : {c : EasyTcpClient N} → CloseStep c telling (tell_disconnect c) finished

  -- The owner in `Stop` and the thread in `OnRun`, in any order.
  pub data Closing
      : EasyTcpClient N → ClosePc → ClosePc → EasyTcpClient N → ClosePc → ClosePc → Type 0 where
    done : {c : EasyTcpClient N} {p q : ClosePc} → Closing c p q c p q
    owner_steps :
        {c c₁ c₂ : EasyTcpClient N} {p p₁ p₂ q q₂ : ClosePc}
        → CloseStep c p c₁ p₁
        → Closing c₁ p₁ q c₂ p₂ q₂
        → Closing c p q c₂ p₂ q₂
    thread_steps :
        {c c₁ c₂ : EasyTcpClient N} {p p₂ q q₁ q₂ : ClosePc}
        → CloseStep c q c₁ q₁
        → Closing c₁ p q₁ c₂ p₂ q₂
        → Closing c p q c₂ p₂ q₂

  -- The client with its `std::thread`, none for NULL, and the threads that it has joined.
  pub record Client : Type 0 where
    pub client : EasyTcpClient N
    pub t1 : Option ℕ
    pub joined : List ℕ

  -- `Start`; `id` is the new thread.
  unfoldable pub start : Client → ℕ → Client
  start c id = record c { t1 = some id }

  -- `Stop`, once the thread has ended.
  unfoldable pub stop : Client → Client
  stop c = elim c.t1 [
    | none ↦ record c { client = close t c.client }
    | some id ↦ record c { client = close t c.client; t1 = none; joined = c.joined ++ id ∷ [] }
  ]
