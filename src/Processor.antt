-- ===== src/Processor.antt =====
-- base/src/message_base.h: `processor_base`, a queue of messages that others post and its thread
-- gets.
pub mod Order
mod Tests
use linux_tcp_lib.Prelude.{
  List-cases, take-nil, take-take, take-split, take-append-drop-length, ℕ, zero, suc, ◌+◌, ◌-◌, ◌*◌,
  ◌/◌, ◌%◌, ◌^◌, ◌≤◌, ◌<◌, ◌≡◌, refl, sym, ap, ap₂, ◌∙◌, ◌≢◌, ◌↔◌, ◌⊎◌, inl, inr, Bool, true, false,
  not, ◌&&◌, ◌||◌, Option, none, some, List, [], ◌∷◌, ◌++◌, map, append-nil, append_assoc, arith,
  ltb, leb, ◌==◌, if◌then◌else◌, ltb→lt, lt→ltb, leb→le, ==_iff, tests, Bool-cases, Option-cases,
  length, get_or, take, drop, length-append, take-append-drop, length-take, length-drop, take_all,
  drop_all, take-append_le, drop-append_le, take-length-append, drop-length-append, drop-nil,
  drop-drop, get_or-append_lt, get_elem?, set, length-set, get_elem?-set_self, get_elem?-set_ne,
  get_elem?-lt, get_elem?-set, set-get_elem?, get_elem?-append_lt, get_elem?-append_self, take-suc,
}
use linux_tcp_lib.SrtQueue.{SrtQueue, srt_queue, push, pop}

-- `atp_message`; the parameters are pointers.
pub record AtpMessage : Type 0 where
  pub type : ℕ
  pub param1 : ℕ
  pub param2 : ℕ

abbrev pub zero_message : AtpMessage
zero_message = record { type = 0; param1 = 0; param2 = 0 }

pub record ProcessorBase : Type 0 where
  pub msg_queue : SrtQueue AtpMessage

-- 2 ^ 12 messages in a page, and the 2 ^ 15 pages that are the default.
unfoldable pub processor_base : ProcessorBase
processor_base = record { msg_queue = srt_queue zero_message 12 15 }

-- `post` drops the answer of `push`.
unfoldable pub post : ProcessorBase → AtpMessage → ProcessorBase
post p msg = record p { msg_queue = (push zero_message p.msg_queue msg).1 }

-- `get`: 0 with the message, or -1 as the pattern of an `int`, which leaves the caller's message.
unfoldable pub got : Option AtpMessage × SrtQueue AtpMessage → Option AtpMessage × ℕ × ProcessorBase
got (none, q) = (none, 2 ^ 32 - 1, record { msg_queue = q })
got (some msg, q) = (some msg, 0, record { msg_queue = q })

unfoldable pub get : ProcessorBase → Option AtpMessage × ℕ × ProcessorBase
unfolding got
get p = got (pop zero_message p.msg_queue)
