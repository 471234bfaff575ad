-- ===== src/Trace.antt =====
-- base/src/trace.h and trace.cpp: `base::trace`, the log of the whole program. Texts are lists of
-- bytes without the final NUL.
pub mod FileName
pub mod Lines
pub mod Sinks
mod Tests
use Prim.Native.Char.{code}
use Prim.Native.String.{String}
use linux_tcp_lib.Prelude.{
  List-cases, take-nil, take-take, take-split, take-append-drop-length, ℕ, zero, suc, ◌+◌, ◌-◌, ◌*◌,
  ◌/◌, ◌%◌, ◌^◌, ◌≤◌, ◌<◌, ◌≡◌, refl, sym, ap, ap₂, ◌∙◌, ◌≢◌, ◌↔◌, ◌⊎◌, inl, inr, Bool, true, false,
  not, ◌&&◌, ◌||◌, Option, none, some, List, [], ◌∷◌, ◌++◌, map, append-nil, append_assoc, arith,
  ltb, leb, ◌==◌, if◌then◌else◌, ltb→lt, lt→ltb, leb→le, ==_iff, tests, Bool-cases, Option-cases,
  length, get_or, take, drop, length-append, take-append-drop, length-take, length-drop, take_all,
  drop_all, take-append_le, drop-append_le, take-length-append, drop-length-append, drop-nil,
  drop-drop, get_or-append_lt, get_elem?, set, length-set, get_elem?-set_self, get_elem?-set_ne,
  get_elem?-lt, get_elem?-set, set-get_elem?, get_elem?-append_lt, get_elem?-append_self, take-suc,
}
use linux_tcp_lib.Words.{int_lt}

-- The bytes of an ASCII text.
abbrev pub codes : String → List ℕ
codes String.[] = []
codes (String.◌∷◌ c s) = code c ∷ codes s

-- `TRACE_LEVEL`.
pub data TraceLevel : Type 0 where
  trace_level_all : TraceLevel
  trace_level_verbose : TraceLevel
  trace_level_debug : TraceLevel
  trace_level_info : TraceLevel
  trace_level_system : TraceLevel
  trace_level_warning : TraceLevel
  trace_level_error : TraceLevel
  trace_level_off : TraceLevel

abbrev pub level_value : TraceLevel → ℕ
level_value trace_level_all = 0
level_value trace_level_verbose = 1
level_value trace_level_debug = 2
level_value trace_level_info = 4
level_value trace_level_system = 8
level_value trace_level_warning = 16
level_value trace_level_error = 32
level_value trace_level_off = 32767

unfoldable pub is_error : TraceLevel → Bool
is_error trace_level_error = true
is_error _ = false

-- The `switch` on the level.
unfoldable pub level_string : TraceLevel → List ℕ
level_string trace_level_verbose = codes "verbose"
level_string trace_level_debug = codes "debug"
level_string trace_level_info = codes "info"
level_string trace_level_system = codes "system"
level_string trace_level_warning = codes "warning"
level_string _ = codes "info"

-- The static members. A callback is the address of a function, none for NULL; the translator is the
-- function; the filter is the pattern of an `int`.
pub record Trace : Type 0 where
  pub callback : Option ℕ
  pub mo_callback : Option ℕ
  pub level_filter : ℕ
  pub error_string_translator : ℕ → List ℕ
  pub std_output : Bool
  pub use_formated : Bool

unfoldable pub default_error_string_translator : ℕ → List ℕ
default_error_string_translator error = codes "NOT DEFINED"

-- The members before any call.
unfoldable pub new_trace : Trace
unfolding default_error_string_translator
new_trace = record {
  callback = none;
  mo_callback = none;
  level_filter = level_value trace_level_all;
  error_string_translator = default_error_string_translator;
  std_output = true;
  use_formated = true;
}

unfoldable pub set_trace_callback : Trace → Option ℕ → Trace
set_trace_callback s callback = record s { callback = callback }

unfoldable pub set_trace_mo_callback : Trace → Option ℕ → Trace
set_trace_mo_callback s callback = record s { mo_callback = callback }

unfoldable pub set_error_string_translator : Trace → Option (ℕ → List ℕ) → Trace
set_error_string_translator s none = s
set_error_string_translator s (some translator) = record s { error_string_translator = translator }

unfoldable pub set_trace_level_filter : Trace → ℕ → Trace
set_trace_level_filter s level = record s { level_filter = level }

unfoldable pub enable_std_output : Trace → Bool → Trace
enable_std_output s enable = record s { std_output = enable }

unfoldable pub use_formated_message : Trace → Bool → Trace
use_formated_message s use_it = record s { use_formated = use_it }

-- What the C library and the system answer during one call: the date that `strftime` writes, the
-- microseconds, the id of the thread, `errno`, and how printf prints an `int`, a `long`, and a number
-- with three digits.
pub record Environment : Type 0 where
  pub date : List ℕ
  pub tv_usec : ℕ
  pub thread_id : ℕ
  pub errno : ℕ
  pub strerror : ℕ → List ℕ
  pub show_int : ℕ → List ℕ
  pub show_long : ℕ → List ℕ
  pub show_three : ℕ → List ℕ

-- What `add` does outside: a text given to fprintf as its format, with no arguments; the line of an
-- encoding error; or a call of a callback.
pub data TraceCall : Type 0 where
  print_stderr : List ℕ → TraceCall
  print_stdout : List ℕ → TraceCall
  out_of_memory : List ℕ → List ℕ → TraceCall
  call_back : ℕ → TraceLevel → List ℕ → ℕ → List ℕ → TraceCall

abbrev pub message_buffer : ℕ
message_buffer = 4096

abbrev pub formated_message_buffer : ℕ
formated_message_buffer = 5120

-- `time_buffer`: the date, a dot and the milliseconds.
unfoldable pub time_text : Environment → List ℕ
time_text e = e.date ++ codes "." ++ e.show_three (e.tv_usec / 1000)

-- The line that `sprintf` writes to `formated_buffer`.
unfoldable pub formated_line : Trace → Environment → TraceLevel → List ℕ → ℕ → List ℕ → List ℕ
unfolding time_text level_string
formated_line s e level name number text =
    let start = time_text e ++ codes " (" ++ e.show_long e.thread_id in
    let known = e.show_int number ++ codes ":" ++ s.error_string_translator number in
    let last = text ++ codes "\n" in
    if is_error level
    then (if e.errno == 0
        then start ++ codes ") [error] " ++ name ++ codes "(" ++ known ++ codes "): " ++ last
        else start
          ++ codes ") [error] "
          ++ name
          ++ codes "("
          ++ known
          ++ codes ", "
          ++ e.show_int e.errno
          ++ codes ":"
          ++ e.strerror e.errno
          ++ codes "): "
          ++ last)
    else start
      ++ codes ") ["
      ++ level_string level
      ++ codes "] "
      ++ name
      ++ codes "("
      ++ e.show_int number
      ++ codes "): "
      ++ last

-- A callback that is not NULL is called.
unfoldable pub tell : Option ℕ → TraceLevel → List ℕ → ℕ → List ℕ → List TraceCall
tell none level name number text = []
tell (some callback) level name number text = call_back callback level name number text ∷ []

unfoldable pub to_callbacks : Trace → TraceLevel → List ℕ → ℕ → List ℕ → List TraceCall
unfolding tell
to_callbacks s level name number text =
    tell s.callback level name number text ++ tell s.mo_callback level name number text

unfoldable pub to_std_output : Trace → TraceLevel → List ℕ → List TraceCall
to_std_output s level line =
    if s.std_output
    then (if is_error level then print_stderr line ∷ [] else print_stdout line ∷ [])
    else []

unfoldable pub is_null : Option ℕ → Bool
is_null none = true
is_null (some callback) = false

-- The two returns at the top of `add`.
unfoldable pub is_silent : Trace → TraceLevel → Bool
is_silent s level =
    int_lt (level_value level) s.level_filter
    || (not s.std_output && (is_null s.callback && is_null s.mo_callback))

-- `add`. `printed` is what `vsnprintf` makes of the message and its arguments, none for an encoding
-- error. The result is none if `sprintf` writes past the end of `formated_buffer`.
unfoldable pub add :
    Trace
    → Environment
    → TraceLevel
    → List ℕ
    → ℕ
    → List ℕ
    → Option (List ℕ)
    → Option (List TraceCall)
unfolding is_silent formated_line to_std_output to_callbacks
add s e level name number message none =
    if is_silent s level then some [] else some (out_of_memory name message ∷ [])
add s e level name number message (some printed) =
    let buffer = take (message_buffer - 1) printed in
    let line = formated_line s e level name number buffer in
    if is_silent s level
    then some []
    else if s.std_output || s.use_formated
    then (if ltb (length line) formated_message_buffer
        then some (to_std_output s level line ++ to_callbacks s level name number line)
        else none)
    else some (to_callbacks s level name number buffer)
