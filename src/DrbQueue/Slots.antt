-- ===== src/DrbQueue/Slots.antt =====
-- How the table of pages grows.
use mathlib.Core.Path.{subst}
use linux_tcp_lib.Prelude.{
  ℕ, suc, ◌*◌, ◌≤◌, ◌<◌, ◌≡◌, refl, sym, ap, ◌∙◌, inl, inr, true, false, none, some, arith, ltb,
  leb, if◌then◌else◌, Bool-cases, Option-cases,
}
use linux_tcp_lib.DrbQueue.{
  Page, DrbQueue, grow, blank_page, with_page, extended, page_at, msg_page,
}

module _ {T : Type 0} (zero_msg : T) where
  -- A page that is NULL reads as one of zeros.
  unfoldable pub table : DrbQueue T → ℕ → Page T
  table q p = elim (q.page_indexes p) [ none ↦ blank_page zero_msg | some page ↦ page ]

  -- The same messages, with the page at `page_index` in the table.
  pub record Longer (q : DrbQueue T) (page_index : ℕ) (q' : DrbQueue T) : Type 0 where
    pub post_index : q'.post_index ≡ q.post_index
    pub write_index : q'.write_index ≡ q.write_index
    pub page_msg_count : q'.page_msg_count ≡ q.page_msg_count
    pub in_table : page_index < q'.page_index_count
    pub longer : q.page_index_count ≤ q'.page_index_count
    pub same : (p : ℕ) → p < q.page_index_count → table q' p ≡ table q p

  abbrev doubled : DrbQueue T → DrbQueue T
  doubled q = record q {
    page_indexes = λ p. if ltb p q.page_index_count then q.page_indexes p else none;
    page_index_count = q.page_index_count * 2;
  }

  extended-doubled :
      (q : DrbQueue T)
      → 0 < q.page_index_count
      → extended zero_msg q q.page_index_count ≡ some (doubled q)
  unfolding extended grow
  extended-doubled q pos =
      let e : leb q.page_index_count q.page_index_count ≡ true = ground arith in
      let e' : ltb (q.page_index_count * 2) q.page_index_count ≡ false = ground arith in rw (e, e')

  doubled-Longer :
      (q : DrbQueue T) → 0 < q.page_index_count → Longer q q.page_index_count (doubled q)
  unfolding table
  doubled-Longer q pos = record {
    post_index = refl;
    write_index = refl;
    page_msg_count = refl;
    in_table = omega arith;
    longer = omega arith;
    same = λ p lt. let e : ltb p q.page_index_count ≡ true = ground arith in rw (e, table);
  }

  -- For the page behind the last one, at most, the table is made long enough.
  extended-Longer :
      (q : DrbQueue T) (page_index : ℕ)
      → 0 < q.page_index_count
      → page_index ≤ q.page_index_count
      → (q' : DrbQueue T) × (extended zero_msg q page_index ≡ some q') × Longer q page_index q'
  unfolding extended
  extended-Longer q page_index pos near = elim (Bool-cases (leb q.page_index_count page_index)) [
    | inl e ↦
        let last : page_index ≡ q.page_index_count = ground arith in
        (
          doubled q,
          ap (extended zero_msg q) last ∙ extended-doubled q pos,
          subst (λ i. Longer q i (doubled q)) (sym last) (doubled-Longer q pos),
        )
    | inr e ↦ (
      q,
      rw e,
      record {
        post_index = refl;
        write_index = refl;
        page_msg_count = refl;
        in_table = ground arith;
        longer = omega arith;
        same = λ p lt. refl;
      },
    )
  ]

  table-some :
      (q : DrbQueue T) (p : ℕ) (page : Page T) → q.page_indexes p ≡ some page → table q p ≡ page
  unfolding table
  table-some q p page f = rw (f, table)

  page_at-Longer :
      (q : DrbQueue T) (page_index : ℕ)
      → page_index < q.page_index_count
      → (q' : DrbQueue T) × (page_at zero_msg q page_index ≡ some (table q page_index, q'))
        × Longer q page_index q'
  unfolding page_at table with_page
  page_at-Longer q page_index lt =
      let e : leb q.page_index_count page_index ≡ false = ground arith in
      elim (Option-cases (q.page_indexes page_index)) [
        | inl f ↦ (
          with_page zero_msg q page_index (blank_page zero_msg),
          rw (e, f, table),
          record {
            post_index = refl;
            write_index = refl;
            page_msg_count = refl;
            in_table = lt;
            longer = omega arith;
            same = λ p lt'. ground arith;
          },
        )
        | inr (page, f) ↦ (
          q,
          rw (e, f, page_at) (ap (λ x. some (x, q)) (sym (table-some q page_index page f))),
          record {
            post_index = refl;
            write_index = refl;
            page_msg_count = refl;
            in_table = lt;
            longer = omega arith;
            same = λ p lt'. refl;
          },
        )
      ]

  -- A page two tables away is asked for behind the end of the new table: the loop that doubles the
  -- size stops one step early, at a size that is equal to the page's number.
  pub msg_page-off_by_one :
      (q : DrbQueue T)
      → 0 < q.page_index_count
      → msg_page zero_msg q (q.page_index_count * 2) ≡ none
  unfolding msg_page extended grow page_at
  msg_page-off_by_one q pos =
      let e : leb q.page_index_count (q.page_index_count * 2) ≡ true = ground arith in
      let e' : ltb (q.page_index_count * 2) (q.page_index_count * 2) ≡ false = ground arith in
      let e'' : leb (q.page_index_count * 2) (q.page_index_count * 2) ≡ true = ground arith in
      let stops : grow (suc (q.page_index_count * 2)) (q.page_index_count * 2)
            (q.page_index_count * 2)
          ≡ some (q.page_index_count * 2) =
        rw (e', grow) in
      let ran : extended zero_msg q (q.page_index_count * 2) ≡ some (doubled q) =
        rw (e, extended, stops) in
      rw (ran, msg_page, e'')

  pub msg_page-Longer :
      (q : DrbQueue T) (page_index : ℕ)
      → 0 < q.page_index_count
      → page_index ≤ q.page_index_count
      → (page : Page T) × (q' : DrbQueue T) × (msg_page zero_msg q page_index ≡ some (page, q'))
        × Longer q page_index q'
        × (page ≡ table q' page_index)
  unfolding msg_page
  msg_page-Longer q page_index pos near =
      let (q₁, ran₁, l₁) = extended-Longer q page_index pos near in
      let (q₂, ran₂, l₂) = page_at-Longer q₁ page_index l₁.in_table in
      (
        table q₁ page_index,
        q₂,
        rw (ran₁, msg_page) ran₂,
        record {
          post_index = l₂.post_index ∙ l₁.post_index;
          write_index = l₂.write_index ∙ l₁.write_index;
          page_msg_count = l₂.page_msg_count ∙ l₁.page_msg_count;
          in_table = l₂.in_table;
          longer = omega (arith, l₁.longer, l₂.longer);
          same = λ p lt. l₂.same p (omega (arith, l₁.longer)) ∙ l₁.same p lt;
        },
        sym (l₂.same page_index l₁.in_table),
      )
