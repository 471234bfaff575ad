-- ===== src/Trace/Tests.antt =====
-- The log on small texts.
use linux_tcp_lib.Prelude.{
  ℕ, zero, suc, ◌+◌, ◌<◌, ◌≡◌, refl, ◌↔◌, ◌⊎◌, true, false, ◌||◌, none, some, List, [], ◌∷◌, ◌++◌,
  arith, length,
}
use linux_tcp_lib.Trace.{
  is_error, trace_level_warning, trace_level_error, level_value, Trace, Environment, codes,
  is_silent, TraceCall, print_stderr, call_back, new_trace, set_trace_callback,
  set_trace_level_filter, add,
}
use linux_tcp_lib.Trace.FileName.{parse_file_name}
use linux_tcp_lib.Trace.Lines.{frame_size, add-overflows}
use linux_tcp_lib.Trace.Sinks.{Unheard, add-filter}

abbrev digit : ℕ → List ℕ
digit n = (48 + n) ∷ []

abbrev environment : Environment
environment = record {
  date = codes "## 2016-01-13 10:00:00";
  tv_usec = 7000;
  thread_id = 3;
  errno = 2;
  strerror = λ n. codes "No such file";
  show_int = digit;
  show_long = digit;
  show_three = λ n. codes "00" ++ digit n;
}

abbrev logging : Trace
logging = set_trace_callback new_trace (some 64)

abbrev path : List ℕ
path = codes "src/base/trace.cpp"

parse_file_name-path : parse_file_name path ≡ some (codes "trace.cpp")
unfolding parse_file_name
parse_file_name-path = refl

abbrev down : List ℕ
down = codes "## 2016-01-13 10:00:00.007 (3) [error] base(4:NOT DEFINED, 2:No such file): down\n"

abbrev down_calls : List TraceCall
down_calls = print_stderr down ∷ call_back 64 trace_level_error (codes "base") 4 down ∷ []

add_line :
    add logging environment trace_level_error (codes "base") 4 (codes "%s") (some (codes "down"))
    ≡ some down_calls
unfolding add new_trace set_trace_callback is_error
add_line = refl

add-filter_example :
    let s' = set_trace_level_filter logging (level_value trace_level_error) in
    (add s' environment trace_level_warning (codes "base") 0 (codes "%s") none ≡ some [])
    ↔ ((level_value trace_level_warning < level_value trace_level_error) ⊎ Unheard logging)
add-filter_example =
    add-filter logging environment trace_level_error trace_level_warning (codes "base") 0
      (codes "%s") none

unfoldable dots : ℕ → List ℕ
dots zero = []
dots (suc n) = b'.' ∷ dots n

length-dots : (n : ℕ) → length (dots n) ≡ n
unfolding dots
length-dots zero = refl
length-dots (suc n) = omega (arith, length-dots n)

-- An application whose text for an error has 1000 bytes.
abbrev wordy : Trace
wordy = record logging { error_string_translator = λ n. dots 1000 }

loud : is_silent wordy trace_level_error ≡ false
unfolding is_silent new_trace set_trace_callback
loud = refl

formats : (wordy.std_output || wordy.use_formated) ≡ true
unfolding new_trace set_trace_callback
formats = refl

add-overflows_example :
    (add wordy environment trace_level_error (codes "base") 4 (codes "%s") (some (dots 5000))
      ≡ none)
    ↔ (1024 < frame_size wordy environment (codes "base") 4)
add-overflows_example =
    add-overflows wordy environment (codes "base") 4 (codes "%s") (dots 5000)
      (λ e. omega (arith, e)) loud formats (omega (arith, length-dots 5000))

wordy_overflows : 1024 < frame_size wordy environment (codes "base") 4
unfolding frame_size new_trace set_trace_callback
wordy_overflows = omega (arith, length-dots 1000)
