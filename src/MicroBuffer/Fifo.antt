-- ===== src/MicroBuffer/Fifo.antt =====
-- The buffer as a queue of bytes.
use linux_tcp_lib.Prelude.{
  ℕ, ◌+◌, ◌-◌, ◌*◌, ◌/◌, ◌%◌, ◌^◌, ◌≤◌, ◌<◌, ◌≡◌, refl, sym, ap, ap₂, ◌∙◌, ◌⊎◌, inl, inr, none,
  some, List, [], ◌++◌, append_assoc, arith, ltb, leb, ltb→lt, leb→le, Bool-cases, length, take,
  drop, take-append-drop,
}
use mathlib.Core.Path.{subst}
use mathlib.Core.Option.{some-injective, some-ne-none}
use linux_tcp_lib.Memory.{slice, store, copy, slice-store_end, slice-copy, drop-slice}
use linux_tcp_lib.MicroBuffer.{
  MicroBuffer, micro_buffer, enable_write, has_write, enable_read, has_read, readable, fill,
}

pub record IsMicroBuffer (b : MicroBuffer) : Type 0 where
  pub ordered : b.read_pos ≤ b.write_pos
  pub in_bounds : b.write_pos ≤ b.total_size
  pub size : b.total_size < 2 ^ 64

enable_read_lem : (b : MicroBuffer) → IsMicroBuffer b → enable_read b ≡ b.write_pos - b.read_pos
unfolding enable_read
enable_read_lem b v = omega (arith, v.ordered, v.in_bounds, v.size)

readable_lem :
    (b : MicroBuffer)
    → IsMicroBuffer b
    → readable b ≡ slice b.buf b.read_pos (b.write_pos - b.read_pos)
unfolding readable
readable_lem b v = ap (slice b.buf b.read_pos) (enable_read_lem b v)

has_write-IsMicroBuffer :
    (b : MicroBuffer) (bytes : List ℕ)
    → IsMicroBuffer b
    → length bytes ≤ enable_write b
    → IsMicroBuffer (has_write (fill b bytes) (length bytes))
      × (readable (has_write (fill b bytes) (length bytes)) ≡ readable b ++ bytes)
unfolding has_write fill enable_write
has_write-IsMicroBuffer b bytes v fits =
    let r = b.read_pos in
    let w = b.write_pos in
    let k = length bytes in
    let sound : IsMicroBuffer (has_write (fill b bytes) k) = record {
      ordered = omega (arith, v.ordered, v.in_bounds, v.size, fits);
      in_bounds = omega (arith, v.ordered, v.in_bounds, v.size, fits);
      size = v.size;
    } in
    let at : w ≡ r + (w - r) = omega (arith, v.ordered) in
    let n : (w + k) % 2 ^ 64 - r ≡ (w - r) + k =
      omega (arith, v.ordered, v.in_bounds, v.size, fits) in
    (
      sound,
      readable_lem (has_write (fill b bytes) k) sound
          ∙ ap₂ (λ a i. slice (store b.buf a bytes) r i) at n
          ∙ slice-store_end b.buf r (w - r) bytes
          ∙ ap (λ l. l ++ bytes) (sym (readable_lem b v)),
    )

module _ (b : MicroBuffer) (len : ℕ) (v : IsMicroBuffer b) (h : len ≤ enable_read b) where
  dropped :
      drop len (readable b) ≡ slice b.buf (b.read_pos + len) (b.write_pos - (b.read_pos + len))
  unfolding enable_read
  dropped =
      let r = b.read_pos in
      let w = b.write_pos in
      let fits : len ≤ w - r = omega (arith, v.ordered, v.in_bounds, v.size, h) in
      let m : w - r - len ≡ w - (r + len) = omega arith in
      ap (drop len) (readable_lem b v)
      ∙ drop-slice b.buf r (w - r) len fits
      ∙ ap (slice b.buf (r + len)) m

  -- On a sound buffer of any size, reading at most what is there drops these bytes from the front
  -- and keeps the buffer sound and its size; or `memcpy` is given blocks that overlap, and then the
  -- size is odd, the buffer is filled to its end and the reader stands one half byte before the
  -- middle.
  pub has_read_lem :
      ((b' : MicroBuffer) × (has_read b len ≡ some b')
        × IsMicroBuffer b'
        × (readable b' ≡ drop len (readable b))
        × (b'.total_size ≡ b.total_size))
      ⊎ ((has_read b len ≡ none)
          × (2 * (b.read_pos + len) + 1 ≡ b.total_size)
          × (b.write_pos ≡ b.total_size))
  unfolding has_read enable_read
  has_read_lem =
      let r' = b.read_pos + len in
      let n = b.write_pos - r' in
      let e : (b.read_pos + len) % 2 ^ 64 ≡ r' = omega (arith, v.ordered, v.in_bounds, v.size, h) in
      let e' : (b.write_pos + 2 ^ 64 - r') % 2 ^ 64 ≡ n =
        omega (arith, v.ordered, v.in_bounds, v.size, h) in
      elim (Bool-cases (leb (b.total_size / 2) r')) [
        | inl half ↦ elim (Bool-cases (ltb r' n)) [
          | inl over ↦
              let low = leb→le (b.total_size / 2) r' half in
              let lt = ltb→lt r' n over in
              inr (
                rw (has_read, e, e', half, over) refl,
                omega (arith, low, lt, v.in_bounds),
                omega (arith, low, lt, v.in_bounds),
              )
          | inr apart ↦
              let b' : MicroBuffer = record b {
                buf = copy b.buf 0 r' n;
                write_pos = n;
                read_pos = 0;
              } in
              let sound : IsMicroBuffer b' = record {
                ordered = omega arith;
                in_bounds = omega (arith, v.in_bounds);
                size = v.size;
              } in
              let same : n - 0 ≡ n = omega arith in
              inl (
                b',
                rw (has_read, e, e', half, apart) refl,
                sound,
                readable_lem b' sound
                    ∙ ap (slice (copy b.buf 0 r' n) 0) same
                    ∙ slice-copy b.buf 0 r' n
                    ∙ sym dropped,
                refl,
              )
        ]
        | inr front ↦
            let b' : MicroBuffer = record b { read_pos = r' } in
            let sound : IsMicroBuffer b' = record {
              ordered = omega (arith, v.ordered, v.in_bounds, v.size, h);
              in_bounds = v.in_bounds;
              size = v.size;
            } in
            inl (b', rw (has_read, e, front) refl, sound, readable_lem b' sound ∙ sym dropped, refl)
      ]

-- A buffer of `total` bytes with all that was written into it and all that was read from it. The
-- reader takes at most what is there, and the writer puts in at most what there is room for.
pub data Reach (total : ℕ) : MicroBuffer → List ℕ → List ℕ → Type 0 where
  fresh : Reach total (micro_buffer total) [] []
  writes :
      {b : MicroBuffer} {w r : List ℕ} (bytes : List ℕ)
      → Reach total b w r
      → length bytes ≤ enable_write b
      → Reach total (has_write (fill b bytes) (length bytes)) (w ++ bytes) r
  reads :
      {b b' : MicroBuffer} {w r : List ℕ} (len : ℕ)
      → Reach total b w r
      → len ≤ enable_read b
      → has_read b len ≡ some b'
      → Reach total b' w (r ++ take len (readable b))

fresh-IsMicroBuffer :
    (total : ℕ)
    → total < 2 ^ 64
    → IsMicroBuffer (micro_buffer total) × (readable (micro_buffer total) ≡ [])
unfolding micro_buffer readable slice
fresh-IsMicroBuffer total lt =
    let sound : IsMicroBuffer (micro_buffer total) = record {
      ordered = omega arith;
      in_bounds = omega arith;
      size = lt;
    } in
    let z : 0 - 0 ≡ 0 = omega arith in
    (sound, readable_lem (micro_buffer total) sound ∙ ap (slice (λ i. 0) 0) z)

Reach-sound :
    {total : ℕ} {b : MicroBuffer} {w r : List ℕ}
    → total < 2 ^ 64
    → Reach total b w r
    → (r ++ readable b ≡ w) × IsMicroBuffer b × (b.total_size ≡ total)
unfolding micro_buffer has_write fill
Reach-sound {total} lt fresh = let (sound, e) = fresh-IsMicroBuffer total lt in (e, sound, refl)
Reach-sound lt (writes {b} {w} {r} bytes before fits) =
    let (fifo, sound, size) = Reach-sound lt before in
    let (sound', e) = has_write-IsMicroBuffer b bytes sound fits in
    (ap (◌++◌ r) e ∙ sym (append_assoc r _ _) ∙ ap (λ l. l ++ bytes) fifo, sound', size)
Reach-sound lt (reads {b} {b'} {w} {r} len before fits e) =
    let (fifo, sound, size) = Reach-sound lt before in
    elim (has_read_lem b len sound fits) [
      | inl (b₁, e₁, sound', dropped', total') ↦
          let same : b₁ ≡ b' = some-injective b₁ b' (sym e₁ ∙ e) in
          (
            append_assoc r _ _
                ∙ ap (λ x. r ++ (take len (readable b) ++ readable x)) (sym same)
                ∙ ap (λ l. r ++ (take len (readable b) ++ l)) dropped'
                ∙ ap (◌++◌ r) (take-append-drop len (readable b))
                ∙ fifo,
            subst IsMicroBuffer same sound',
            ap (λ x. x.total_size) (sym same) ∙ total' ∙ size,
          )
      | inr (over, odd, full) ↦ absurd (some-ne-none b' (sym e ∙ over))
    ]

-- A buffer that is smaller than 2^64, in every history in which no read so far has given `memcpy`
-- blocks that overlap: the bytes that were read, followed by those that may still be read, are the
-- bytes that were written. And a further read of at most what is there is done, or it is the first to
-- give `memcpy` blocks that overlap; then the size is odd, the buffer is filled to its end, and the
-- reader comes to stand one half byte before the middle.
pub Reach-fifo :
    {total : ℕ} {b : MicroBuffer} {w r : List ℕ} (len : ℕ)
    → total < 2 ^ 64
    → Reach total b w r
    → len ≤ enable_read b
    → (r ++ readable b ≡ w)
      × IsMicroBuffer b
      × (((b' : MicroBuffer) × (has_read b len ≡ some b') × (readable b' ≡ drop len (readable b)))
          ⊎ ((has_read b len ≡ none)
              × (2 * (b.read_pos + len) + 1 ≡ total)
              × (b.write_pos ≡ total)))
Reach-fifo {total} {b} len lt reach fits =
    let (fifo, sound, size) = Reach-sound lt reach in
    (
      fifo,
      sound,
      elim (has_read_lem b len sound fits) [
        | inl (b', ran, sound', dropped', total') ↦ inl (b', ran, dropped')
        | inr (over, odd, full) ↦ inr (over, odd ∙ size, full ∙ size)
      ],
    )
