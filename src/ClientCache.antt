-- ===== src/ClientCache.antt =====
-- common/src/tcp_client_notify.h and tcp_client_notify.cpp: the block in which `OnRecvData` copies
-- each message for `handle_msg`: `m_msg_cache`, or a block of its own where that is too small.
pub mod Blocks
pub mod Loop
mod Tests
use linux_tcp_lib.Prelude.{
  ℕ, zero, suc, ◌+◌, ◌*◌, ◌-◌, ◌^◌, ◌%◌, Bool, true, ◌&&◌, ltb, leb, Option, none, some, List, [],
  ◌∷◌, ◌==◌, if◌then◌else◌, length, drop,
}
use linux_tcp_lib.Words.{add64, sub64, to_int, sign_extend, int_lt, bias}
use linux_tcp_lib.Memory.{Memory, store}
use linux_tcp_lib.Frame.{MsgHeader, msg_header_size, payload_at, frame_ready}

-- The class that inherits `tcp_client_notify`. Its `handle_msg` is handed `type` and `param1` of the
-- `atp_message`: the memory behind a pointer, without its length. It may write there.
pub record BlockHub (H : Type 0) : Type 0 where
  pub handle_block : H → ℕ → Memory → H × Memory

-- `m_msg_cache` with `m_cache_size`, and a ghost part: how many blocks have been taken by `new` and
-- given back by `delete`, and whether every write has been inside its block.
pub record MsgCache : Type 0 where
  pub msg_cache : Memory
  pub cache_size : ℕ
  pub news : ℕ
  pub deletes : ℕ
  pub in_bounds : Bool

-- `return -1` from a function into `size_t`.
abbrev minus_one : ℕ
minus_one = 2 ^ 64 - 1

-- The `n` bytes that `memset` writes.
unfoldable pub zeros : ℕ → List ℕ
zeros zero = []
zeros (suc n) = 0 ∷ zeros n

-- `m_header->data_size + 1`, an `int`.
abbrev pub block_size : MsgHeader → ℕ
block_size header = to_int (header.data_size + 1)

-- `memset` of `data_size + 1` bytes, then `memcpy` of the body, which begins 8 bytes behind `p`.
unfoldable pub fill_block : Memory → List ℕ → MsgHeader → Memory
fill_block m p header =
    store (store m 0 (zeros (sign_extend (block_size header)))) 0 (payload_at p header)

-- Both writes end inside a block of `size` bytes.
unfoldable pub fits : ℕ → List ℕ → MsgHeader → Bool
fits size p header =
    leb (sign_extend (block_size header)) size && leb (length (payload_at p header)) size

-- `heap k` is what the block of the `k`-th `new` has in it.
unfoldable pub tcp_client_notify : (ℕ → Memory) → MsgCache
tcp_client_notify heap = record {
  msg_cache = heap 0;
  cache_size = 1024 * 8;
  news = 1;
  deletes = 0;
  in_bounds = true;
}

-- The destructor.
unfoldable pub delete_cache : MsgCache → MsgCache
delete_cache c = record c { deletes = c.deletes + 1 }

module _ {H : Type 0} (hub : BlockHub H) (heap : ℕ → Memory) where
  -- The body of the loop for one message. `m_cache_size` is below 2 ^ 31, so that it is compared with
  -- an `int` as an `int` is.
  unfoldable pub handle_frame : H → MsgCache → List ℕ → MsgHeader → H × MsgCache
  handle_frame h c p header =
      if int_lt c.cache_size (block_size header)
      then (
        (hub.handle_block h header.type (fill_block (heap c.news) p header)).0,
        record c {
          news = c.news + 1;
          deletes = c.deletes + 1;
          in_bounds = c.in_bounds && fits (sign_extend (block_size header)) p header;
        },
      )
      else (
        (hub.handle_block h header.type (fill_block c.msg_cache p header)).0,
        record c {
          msg_cache = (hub.handle_block h header.type (fill_block c.msg_cache p header)).1;
          in_bounds = c.in_bounds && fits c.cache_size p header;
        },
      )

  -- The `while` loop; none means that the fuel ran out.
  unfoldable pub read_loop : ℕ → ℕ → List ℕ → ℕ → H → MsgCache → Option (ℕ × H × MsgCache)
  read_loop zero size pstr readpos h c = none
  read_loop (suc fuel) size pstr readpos h c =
      elim (frame_ready (sub64 size readpos) (drop readpos pstr)) [
        | none ↦ some (readpos, h, c)
        | some header ↦
            let (h₁, c₁) = handle_frame h c (drop readpos pstr) header in
            read_loop fuel size pstr
              (add64 readpos (add64 msg_header_size (sign_extend header.data_size))) h₁ c₁
      ]

  -- `buf` is none for NULL. The fuel is one round for each byte and one to stop.
  unfoldable pub on_recv_data : H → MsgCache → Option (List ℕ) → ℕ → Option (ℕ × H × MsgCache)
  on_recv_data h c none len = some (minus_one, h, c)
  on_recv_data h c (some buf) len =
      if len == 0 then some (minus_one, h, c) else read_loop (suc len) len buf 0 h c
