-- ===== src/ServerThreads/Tests.antt =====
-- A server with no event loop, whose accepting thread is started and stopped.
use linux_tcp_lib.Prelude.{refl, ◌≢◌, Bool, true, false, none, some, [], arith}
use linux_tcp_lib.Threads.{start, set_running, naps, clear}
use linux_tcp_lib.Threads.Steps.{
  System, begins, ends, starts, goes_on, asks, joins, idle, checking, joining, gone, created,
  looping, not_stopped, joined, Worker, Pc,
}
use linux_tcp_lib.Threads.Stopping.{Left}
use linux_tcp_lib.ServerThreads as Server
use linux_tcp_lib.ServerThreads.{
  ServerThreads, below, server_threads, set_thread, starts_next, stops, stops_next, Serves, fresh,
  then_step,
}
use linux_tcp_lib.ServerThreads.Stopped.{server-stopped}

-- The accepting thread in a state.
abbrev in_state : Bool → Worker → Pc → System
in_state running worker pc = record {
  process = record { thread = some 7; is_running = running };
  worker = worker;
  pc = pc;
  outcome = not_stopped;
}

abbrev ended : System
ended = record {
  process = record { thread = none; is_running = false };
  worker = gone;
  pc = idle;
  outcome = joined;
}

abbrev put_in : ServerThreads → System → ServerThreads
put_in s t = record s { threads = set_thread s.threads 0 t }

abbrev started : ServerThreads
started = record (put_in (server_threads 0) (in_state false created idle)) { to_start = [] }

abbrev serving : ServerThreads
serving = put_in started (in_state true looping idle)

abbrev asked : ServerThreads
asked = put_in (put_in serving (in_state true looping checking)) (in_state false looping joining)

abbrev stopped : ServerThreads
stopped = record (put_in (put_in asked (in_state false gone joining)) ended) { to_stop = [] }

started-Serves : Serves 0 started
unfolding server_threads below set_thread start
started-Serves =
    then_step fresh (starts_next 0 [] (in_state false created idle) refl (starts 7) refl refl)

asked-Serves : Serves 0 asked
unfolding server_threads below set_thread set_running naps
asked-Serves =
    then_step
      (then_step (then_step started-Serves (Server.goes_on 0 (in_state true looping idle) begins))
        (stops 0 [] (in_state true looping checking) refl refl (goes_on refl) (λ e. cc)))
      (stops 0 [] (in_state false looping joining) refl refl (asks refl) (λ e. cc))

stopped-Serves : Serves 0 stopped
unfolding server_threads below set_thread clear
stopped-Serves =
    then_step (then_step asked-Serves (Server.goes_on 0 (in_state false gone joining) (ends refl)))
      (stops_next 0 [] ended refl refl joins refl (λ e. cc))

server-stopped_example :
    let t = stopped.threads 0 in Left t.worker t.process t.outcome × (t.outcome ≢ not_stopped)
server-stopped_example = server-stopped 0 stopped 0 stopped-Serves refl (omega arith)
