-- ===== src/SendCell/Fifo.antt =====
-- The ring sends the bytes of the messages that were put into it, in order.
use linux_tcp_lib.Prelude.{
  ℕ, zero, suc, ◌+◌, ◌-◌, ◌%◌, ◌≤◌, ◌<◌, ◌≡◌, refl, sym, ap, ◌∙◌, ◌⊎◌, inl, inr, true, none, some,
  List, [], ◌∷◌, ◌++◌, append-nil, append_assoc, arith, leb, leb→le, Bool-cases, length, take, drop,
  length-append, length-take, length-drop, drop-append_le, drop-length-append, drop-drop,
}
use mathlib.Core.Path.{subst}
use linux_tcp_lib.SrtQueue.Slots.{mod-ne}
use linux_tcp_lib.SendCell.{
  SendCellUnit, SendCell, PackageHead, Sizes, ok, write_cache_full, set_slot, new_unit, write_chche,
  enable_read, read_chche, read_enable_len, has_read, clear_loop, clear,
}
use linux_tcp_lib.SendCell.Ring.{
  IsReady, Holds, IsRing, bytes, Holds-write, Holds-set_slot, Holds-set_slot_first, set_slot_self,
  Holds-snoc, bytes-append, is_empty-IsRing, is_empty-nil, is_full-IsRing,
}

module _ (z : Sizes) where
  new_unit-IsReady :
      (ph : PackageHead) (ptr : List ℕ)
      → 0 < length ph.bytes
      → ph.size ≤ length ptr
      → IsReady (new_unit z ph ptr)
        × (bytes (new_unit z ph ptr ∷ []) ≡ ph.bytes ++ take ph.size ptr)
  unfolding new_unit
  new_unit-IsReady ph ptr head enough =
      let body = length-take ph.size ptr in
      (
        record {
          holds = omega (arith, length-append ph.bytes (take ph.size ptr), body);
          unsent = omega arith;
          enabled = refl;
        },
        append-nil (ph.bytes ++ take ph.size ptr),
      )

  -- `write_chche`, for a header that is not empty and a buffer with `size` bytes: a full ring
  -- answers with its code and stays as it is; into any other the header and the message go, behind
  -- the bytes that wait.
  pub write_chche_lem :
      (c : SendCell) (us : List SendCellUnit) (ph : PackageHead) (ptr : List ℕ)
      → IsRing z c us
      → 0 < length ph.bytes
      → ph.size ≤ length ptr
      → ((suc (length us) ≡ z.send_cell_size) × (write_chche z c ph ptr ≡ (write_cache_full, c)))
        ⊎ ((c' : SendCell) × (us' : List SendCellUnit) × (write_chche z c ph ptr ≡ (ok, c'))
            × IsRing z c' us'
            × (bytes us' ≡ bytes us ++ (ph.bytes ++ take ph.size ptr)))
  unfolding write_chche
  write_chche_lem c us ph ptr v head enough =
      let n = z.send_cell_size in
      let r = c.read_pos in
      let w = c.write_pos in
      let u = new_unit z ph ptr in
      let (ready, new) = new_unit-IsReady ph ptr head enough in
      let count = Holds-write n c.scu_ptr r w us v.slots in
      elim (is_full-IsRing z c us v) [
        | inl (e, last) ↦ inl (last, rw e refl)
        | inr (e, room) ↦
            let f = set_slot c.scu_ptr (w % n) (some u) in
            let kept =
              Holds-set_slot n c.scu_ptr r w w (some u) us
                (λ k le lt same. mod-ne k w n lt (omega arith) (sym same)) v.slots in
            let up : w + 1 ≡ suc w = omega arith in
            let here : f (w % n) ≡ some u = set_slot_self c.scu_ptr (w % n) (some u) in
            inr (
              record { scu_ptr = f; read_pos = r; write_pos = w + 1 },
              us ++ u ∷ [],
              rw e refl,
              record {
                room = omega (arith, length-append us (u ∷ []));
                slots =
                    subst (λ i. Holds n f r i (us ++ u ∷ [])) (sym up)
                      (Holds-snoc n f r w u us kept here ready);
              },
              bytes-append us (u ∷ []) ∙ ap (◌++◌ (bytes us)) new,
            )
      ]

  module _ (c : SendCell) (u : SendCellUnit) (us : List SendCellUnit)
      (v : IsRing z c (u ∷ us)) where
    enable_read-IsRing : enable_read z c ≡ true
    unfolding enable_read
    enable_read-IsRing =
        let e = is_empty-IsRing z c (u ∷ us) v (omega arith) in
        let (at, ready, later) = v.slots in let on = ready.enabled in rw (e, at) (ground arith)

    -- A ring with messages hands out the rest of the oldest one, which is not empty.
    pub read_chche_lem :
        (read_chche z c ≡ some (drop u.send_pos u.ptr))
        × (read_enable_len z c ≡ length (drop u.send_pos u.ptr))
        × (0 < read_enable_len z c)
    unfolding read_chche read_enable_len
    read_chche_lem =
        let on = enable_read-IsRing in
        let (at, ready, later) = v.slots in
        let len = length-drop u.send_pos u.ptr in
        let holds = ready.holds in
        let unsent = ready.unsent in
        (rw (on, at) refl, rw (on, at) (omega arith), rw (on, at) (omega arith))

    -- Telling the ring that `len` bytes of these were sent drops them from the bytes that wait.
    pub has_read-bytes :
        (len : ℕ)
        → len ≤ read_enable_len z c
        → (c' : SendCell) × (us' : List SendCellUnit) × (has_read z c len ≡ some c')
          × IsRing z c' us'
          × (bytes us' ≡ drop len (bytes (u ∷ us)))
    unfolding has_read
    has_read-bytes len le =
        let n = z.send_cell_size in
        let r = c.read_pos in
        let (at, ready, later) = v.slots in
        let rest = drop u.send_pos u.ptr in
        let (out, size, some_left) = read_chche_lem in
        let long : length rest ≡ u.size - u.send_pos =
          length-drop u.send_pos u.ptr ∙ ap (λ i. i - u.send_pos) ready.holds in
        let up : r + 1 ≡ suc r = omega arith in
        elim (Bool-cases (leb u.size (u.send_pos + len))) [
          | inl e ↦
              let over = leb→le u.size (u.send_pos + len) e in
              let all : len ≡ length rest = omega arith in
              let f = set_slot c.scu_ptr (r % n) none in
              (
                record { scu_ptr = f; read_pos = r + 1; write_pos = c.write_pos },
                us,
                rw (has_read, at, e) refl,
                record {
                  room = omega (arith, v.room);
                  slots =
                      subst (λ i. Holds n f i c.write_pos us) (sym up)
                        (Holds-set_slot_first n c.scu_ptr r c.write_pos none us v.room later);
                },
                sym (ap (λ i. drop i (rest ++ bytes us)) all ∙ drop-length-append rest (bytes us)),
              )
          | inr e ↦
              let sent : SendCellUnit = record u { send_pos = u.send_pos + len } in
              let f = set_slot c.scu_ptr (r % n) (some sent) in
              (
                record c { scu_ptr = f },
                sent ∷ us,
                rw (has_read, at, e) refl,
                record {
                  room = v.room;
                  slots = (
                    set_slot_self c.scu_ptr (r % n) (some sent),
                    record { holds = ready.holds; unsent = ground arith; enabled = ready.enabled },
                    Holds-set_slot_first n c.scu_ptr r c.write_pos (some sent) us v.room later,
                  );
                },
                ap (λ l. l ++ bytes us) (sym (drop-drop u.send_pos len u.ptr))
                    ∙ sym (drop-append_le len rest (bytes us) (omega arith)),
              )
        ]

  clear_loop-IsRing :
      (rounds : ℕ) (c : SendCell) (us freed : List SendCellUnit)
      → length us ≤ rounds
      → IsRing z c us
      → (c' : SendCell) × (clear_loop z rounds c freed ≡ some (c', freed ++ us)) × IsRing z c' []
  unfolding clear_loop
  clear_loop-IsRing zero c [] freed le v =
      (c, rw (clear_loop, is_empty-nil z c v) (ap (λ l. some (c, l)) (sym (append-nil freed))), v)
  clear_loop-IsRing zero c (u ∷ us) freed le v = absurd (omega arith)
  clear_loop-IsRing (suc rounds) c [] freed le v =
      (c, rw (clear_loop, is_empty-nil z c v) (ap (λ l. some (c, l)) (sym (append-nil freed))), v)
  clear_loop-IsRing (suc rounds) c (u ∷ us) freed le v =
      let n = z.send_cell_size in
      let r = c.read_pos in
      let (at, ready, later) = v.slots in
      let up : r + 1 ≡ suc r = omega arith in
      let f = set_slot c.scu_ptr (r % n) none in
      let c₁ : SendCell = record { scu_ptr = f; read_pos = r + 1; write_pos = c.write_pos } in
      let v₁ : IsRing z c₁ us = record {
        room = omega (arith, v.room);
        slots =
            subst (λ i. Holds n f i c.write_pos us) (sym up)
              (Holds-set_slot_first n c.scu_ptr r c.write_pos none us v.room later);
      } in
      let (c', e, v') = clear_loop-IsRing rounds c₁ us (freed ++ u ∷ []) (omega arith) v₁ in
      (
        c',
        rw (clear_loop, is_empty-IsRing z c (u ∷ us) v (omega arith), at)
            (e ∙ ap (λ l. some (c', l)) (append_assoc freed (u ∷ []) us)),
        v',
      )

  -- `clear` on a sound ring comes to its end within one round for each slot: it frees every message
  -- that waits, each of them once, and leaves the ring empty.
  pub clear_lem :
      (c : SendCell) (us : List SendCellUnit)
      → IsRing z c us
      → (c' : SendCell) × (clear z c ≡ some (c', us)) × IsRing z c' []
  unfolding clear
  clear_lem c us v = clear_loop-IsRing z.send_cell_size c us [] (omega (arith, v.room)) v
