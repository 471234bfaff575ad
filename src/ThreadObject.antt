-- ===== src/ThreadObject.antt =====
-- The class `thread` of base/src/thread.h and thread.cpp, on Linux: a handle that its destructor
-- joins. No other file of the repository uses it.
pub mod Lifetime
mod Tests
use linux_tcp_lib.Prelude.{
  List-cases, take-nil, take-take, take-split, take-append-drop-length, ℕ, zero, suc, ◌+◌, ◌-◌, ◌*◌,
  ◌/◌, ◌%◌, ◌^◌, ◌≤◌, ◌<◌, ◌≡◌, refl, sym, ap, ap₂, ◌∙◌, ◌≢◌, ◌↔◌, ◌⊎◌, inl, inr, Bool, true, false,
  not, ◌&&◌, ◌||◌, Option, none, some, List, [], ◌∷◌, ◌++◌, map, append-nil, append_assoc, arith,
  ltb, leb, ◌==◌, if◌then◌else◌, ltb→lt, lt→ltb, leb→le, ==_iff, tests, Bool-cases, Option-cases,
  length, get_or, take, drop, length-append, take-append-drop, length-take, length-drop, take_all,
  drop_all, take-append_le, drop-append_le, take-length-append, drop-length-append, drop-nil,
  drop-drop, get_or-append_lt, get_elem?, set, length-set, get_elem?-set_self, get_elem?-set_ne,
  get_elem?-lt, get_elem?-set, set-get_elem?, get_elem?-append_lt, get_elem?-append_self, take-suc,
}
use linux_tcp_lib.Threads.{Creation, created_as, failed}

-- The calls to the library of threads; `pthread_detach` is given the handle whatever it is.
pub data PthreadCall : Type 0 where
  pthread_join : ℕ → PthreadCall
  pthread_detach : Option ℕ → PthreadCall

-- The handle is none for NULL.
pub record Thread : Type 0 where
  pub thread : Option ℕ
  pub calls : List PthreadCall

unfoldable pub new_thread : Thread
new_thread = record { thread = none; calls = [] }

-- `create` does not look at what `pthread_create` answers.
unfoldable pub create : Thread → Creation → Thread
create t (created_as id) = record t { thread = some id }
create t (failed handle) = record t { thread = handle }

unfoldable pub join : Thread → Thread
join t = elim t.thread [
  | none ↦ t
  | some id ↦ record { thread = none; calls = t.calls ++ pthread_join id ∷ [] }
]

unfoldable pub detach : Thread → Thread
detach t = record t { calls = t.calls ++ pthread_detach t.thread ∷ [] }

-- The destructor.
unfoldable pub destroy_thread : Thread → Thread
unfolding join
destroy_thread t = join t

-- `sleep`: the microseconds that `usleep` is given, an `unsigned int`.
unfoldable pub sleep_usec : ℕ → ℕ
sleep_usec milli_seconds = milli_seconds * 1000 % 2 ^ 32
