-- ===== src/Threads.antt =====
-- `process_thread` of base/src/thread.h and thread.cpp, as it is built on Linux: a flag and the
-- handle of a thread, used by the thread itself and by the owner that starts and stops it.
pub mod Steps
pub mod Invariant
pub mod Stopping
mod Tests
use linux_tcp_lib.Prelude.{ℕ, Bool, true, false, not, ◌&&◌, Option, none, some}

-- The handle is none for 0.
pub record ProcessThread : Type 0 where
  pub thread : Option ℕ
  pub is_running : Bool

-- What `pthread_create` answers: a handle, or an error, which leaves any handle behind.
pub data Creation : Type 0 where
  created_as : ℕ → Creation
  failed : Option ℕ → Creation

abbrev pub process_thread : ProcessThread
process_thread = record { thread = none; is_running = false }

unfoldable pub start : ProcessThread → Creation → ProcessThread
start p (created_as id) = record p { thread = some id }
start p (failed handle) = record p { thread = handle }

unfoldable pub set_running : ProcessThread → Bool → ProcessThread
set_running p is_running = record p { is_running = is_running }

-- The first `if` of `stop`: whether it sleeps, so that a thread that was created may begin.
unfoldable pub naps : ProcessThread → Bool
naps p = not p.is_running && elim p.thread [ none ↦ false | some id ↦ true ]

-- The end of `stop`, behind `pthread_join`.
unfoldable pub clear : ProcessThread → ProcessThread
clear p = record p { thread = none }
