-- ===== src/Threads/Steps.antt =====
-- The owner's calls and the thread's own steps over one `process_thread`, interleaved in any order.
-- Each read and each write of the flag is one step.
use linux_tcp_lib.Prelude.{ℕ, ◌≡◌, true, false, Option}
use linux_tcp_lib.Threads.{
  ProcessThread, created_as, failed, process_thread, start, set_running, naps, clear,
}

-- The thread: there is none, or it has ended; it is created; it is in the loop of `run`.
pub data Worker : Type 0 where
  gone : Worker
  created : Worker
  looping : Worker

-- The owner: outside `stop`, in its `sleep`, in front of its second `if`, or in `pthread_join`.
pub data Pc : Type 0 where
  idle : Pc
  sleeping : Pc
  checking : Pc
  joining : Pc

-- How the last `stop` since the last `start` returned.
pub data Outcome : Type 0 where
  not_stopped : Outcome
  joined : Outcome
  missed : Outcome

pub record System : Type 0 where
  pub process : ProcessThread
  pub worker : Worker
  pub pc : Pc
  pub outcome : Outcome

-- A `run` of this repository is a loop that ends when it reads that the flag is false. A round of it
-- need not end: that of an event loop spins in `doRecv` while `read` answers EAGAIN. Such a thread
-- makes no further step here, so that a state that is reached stands for it too; nothing says that a
-- thread in its loop goes on.
pub data Work : System → System → Type 0 where
  -- `_thread_proc` calls `set_running(true)`, then `run`.
  begins :
      {p : ProcessThread} {pc : Pc} {o : Outcome}
      → Work
          (record { process = p; worker = created; pc = pc; outcome = o })
          (record { process = set_running p true; worker = looping; pc = pc; outcome = o })
  goes_round :
      {p : ProcessThread} {pc : Pc} {o : Outcome}
      → p.is_running ≡ true
      → Work
          (record { process = p; worker = looping; pc = pc; outcome = o })
          (record { process = p; worker = looping; pc = pc; outcome = o })
  ends :
      {p : ProcessThread} {pc : Pc} {o : Outcome}
      → p.is_running ≡ false
      → Work
          (record { process = p; worker = looping; pc = pc; outcome = o })
          (record { process = p; worker = gone; pc = pc; outcome = o })

-- The owner starts no second thread beside one of its own. The `start` and `stop` of `cellManager`
-- first read the flag: where it lets them go on they are those of `process_thread`, else they do
-- nothing, which is the step `skips`.
pub data Call : System → System → Type 0 where
  starts :
      {p : ProcessThread} {o : Outcome} (id : ℕ)
      → Call
          (record { process = p; worker = gone; pc = idle; outcome = o })
          (record {
            process = start p (created_as id);
            worker = created;
            pc = idle;
            outcome = not_stopped;
          })
  start_fails :
      {p : ProcessThread} {o : Outcome} (handle : Option ℕ)
      → Call
          (record { process = p; worker = gone; pc = idle; outcome = o })
          (record {
            process = start p (failed handle);
            worker = gone;
            pc = idle;
            outcome = not_stopped;
          })
  skips :
      {p : ProcessThread} {w : Worker} {o : Outcome}
      → p.is_running ≡ false
      → Call
          (record { process = p; worker = w; pc = idle; outcome = o })
          (record { process = p; worker = w; pc = idle; outcome = missed })
  falls_asleep :
      {p : ProcessThread} {w : Worker} {o : Outcome}
      → naps p ≡ true
      → Call
          (record { process = p; worker = w; pc = idle; outcome = o })
          (record { process = p; worker = w; pc = sleeping; outcome = o })
  goes_on :
      {p : ProcessThread} {w : Worker} {o : Outcome}
      → naps p ≡ false
      → Call
          (record { process = p; worker = w; pc = idle; outcome = o })
          (record { process = p; worker = w; pc = checking; outcome = o })
  wakes :
      {p : ProcessThread} {w : Worker} {o : Outcome}
      → Call
          (record { process = p; worker = w; pc = sleeping; outcome = o })
          (record { process = p; worker = w; pc = checking; outcome = o })
  asks :
      {p : ProcessThread} {w : Worker} {o : Outcome}
      → p.is_running ≡ true
      → Call
          (record { process = p; worker = w; pc = checking; outcome = o })
          (record { process = set_running p false; worker = w; pc = joining; outcome = o })
  misses :
      {p : ProcessThread} {w : Worker} {o : Outcome}
      → p.is_running ≡ false
      → Call
          (record { process = p; worker = w; pc = checking; outcome = o })
          (record { process = p; worker = w; pc = idle; outcome = missed })
  -- `pthread_join` returns when the thread has ended.
  joins :
      {p : ProcessThread} {o : Outcome}
      → Call
          (record { process = p; worker = gone; pc = joining; outcome = o })
          (record { process = clear p; worker = gone; pc = idle; outcome = joined })

abbrev pub init : System
init = record { process = process_thread; worker = gone; pc = idle; outcome = not_stopped }

pub data Reach : System → Type 0 where
  at_first : Reach init
  worked : {s t : System} → Reach s → Work s t → Reach t
  called : {s t : System} → Reach s → Call s t → Reach t

-- What the thread does by itself.
pub data Works (s : System) : System → Type 0 where
  rests : Works s s
  works : {t u : System} → Works s t → Work t u → Works s u
