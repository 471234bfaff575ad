-- ===== src/ServerThreads.antt =====
-- `start` and `stop` of base/src/tcp_server/server.cpp over the threads of a server: those of its
-- event loops, which it starts and stops through `start` and the destructor of `cellManager`, and
-- the accepting one. What the threads do comes in between, in any order.
pub mod Stopped
mod Tests
use linux_tcp_lib.Prelude.{
  List-cases, take-nil, take-take, take-split, take-append-drop-length, ℕ, zero, suc, ◌+◌, ◌-◌, ◌*◌,
  ◌/◌, ◌%◌, ◌^◌, ◌≤◌, ◌<◌, ◌≡◌, refl, sym, ap, ap₂, ◌∙◌, ◌≢◌, ◌↔◌, ◌⊎◌, inl, inr, Bool, true, false,
  not, ◌&&◌, ◌||◌, Option, none, some, List, [], ◌∷◌, ◌++◌, map, append-nil, append_assoc, arith,
  ltb, leb, ◌==◌, if◌then◌else◌, ltb→lt, lt→ltb, leb→le, ==_iff, tests, Bool-cases, Option-cases,
  length, get_or, take, drop, length-append, take-append-drop, length-take, length-drop, take_all,
  drop_all, take-append_le, drop-append_le, take-length-append, drop-length-append, drop-nil,
  drop-drop, get_or-append_lt, get_elem?, set, length-set, get_elem?-set_self, get_elem?-set_ne,
  get_elem?-lt, get_elem?-set, set-get_elem?, get_elem?-append_lt, get_elem?-append_self, take-suc,
}
use linux_tcp_lib.Threads.Steps.{System, Work, Call, idle, gone, not_stopped, init}

-- The threads by number, the accepting one behind the loops; those still to start, and to stop.
pub record ServerThreads : Type 0 where
  pub threads : ℕ → System
  pub to_start : List ℕ
  pub to_stop : List ℕ

-- The numbers below `n`.
unfoldable pub below : ℕ → List ℕ
below zero = []
below (suc n) = below n ++ n ∷ []

-- `start` goes over the loops and then starts the accepting thread; `stop` ends the accepting
-- thread and then goes over the loops.
unfoldable pub server_threads : ℕ → ServerThreads
unfolding below
server_threads loops = record {
  threads = λ k. init;
  to_start = below loops ++ loops ∷ [];
  to_stop = loops ∷ below loops;
}

unfoldable pub set_thread : (ℕ → System) → ℕ → System → ℕ → System
set_thread threads k t j = if k == j then t else threads j

pub data ServerStep : ServerThreads → ServerThreads → Type 0 where
  -- A thread goes on by itself.
  goes_on :
      {s : ServerThreads} (k : ℕ) (t : System)
      → Work (s.threads k) t
      → ServerStep s (record s { threads = set_thread s.threads k t })
  -- `start` of the next thread, which may fail.
  starts_next :
      {s : ServerThreads} (k : ℕ) (rest : List ℕ) (t : System)
      → s.to_start ≡ k ∷ rest
      → Call (s.threads k) t
      → t.outcome ≡ not_stopped
      → t.pc ≡ idle
      → ServerStep s (record s { threads = set_thread s.threads k t; to_start = rest })
  -- A step of the `stop` of the next thread, ...
  stops :
      {s : ServerThreads} (k : ℕ) (rest : List ℕ) (t : System)
      → s.to_start ≡ []
      → s.to_stop ≡ k ∷ rest
      → Call (s.threads k) t
      → t.pc ≢ idle
      → ServerStep s (record s { threads = set_thread s.threads k t })
  -- ... and its last one.
  stops_next :
      {s : ServerThreads} (k : ℕ) (rest : List ℕ) (t : System)
      → s.to_start ≡ []
      → s.to_stop ≡ k ∷ rest
      → Call (s.threads k) t
      → t.pc ≡ idle
      → t.outcome ≢ not_stopped
      → ServerStep s (record s { threads = set_thread s.threads k t; to_stop = rest })

pub data Serves (loops : ℕ) : ServerThreads → Type 0 where
  fresh : Serves loops (server_threads loops)
  then_step : {s t : ServerThreads} → Serves loops s → ServerStep s t → Serves loops t
