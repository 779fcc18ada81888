-- ===== src/Stdio/Scroll.antt =====
-- What `scroll` leaves on the screen.
use native.Mathlib.Decide.{ℕ_discrete, dec_lt}
use almorina_os.Prelude.{
  ℕ, zero, suc, ◌+◌, ◌*◌, ◌≤◌, ◌<◌, ◌≡◌, ◌⊎◌, refl, ap, ◌∙◌, arith, inl, inr, leb, true,
}
use almorina_os.Vga.{Vga, Cursor, vga_setch, vga_getch}
use almorina_os.Stdio.{scroll_row, scroll_rows, blank_row, blank_char, scroll}

-- The cell `p` of `w` has the character `c` and otherwise what it has in `v`.
abbrev IsRewritten : Vga → Vga → ℕ → ℕ → Type 0
IsRewritten v w p c =
    ((w.video_memory p).character ≡ c) × ((w.video_memory p).color ≡ (v.video_memory p).color)

abbrev character_at : Vga → ℕ → ℕ
character_at v p = (v.video_memory p).character

-- What a loop from cell `p` on for `n` cells leaves: they are rewritten, and all else is kept.
record Rewrote (p n : ℕ) (c : ℕ → ℕ) (v w : Vga) : Type 0 where
  inside : (q : ℕ) → p ≤ q → q < p + n → IsRewritten v w q (c q)
  outside : (q : ℕ) → (q < p) ⊎ (p + n ≤ q) → w.video_memory q ≡ v.video_memory q

scroll_row-Rewrote :
    (n j i : ℕ) (v : Vga)
    → j + n ≡ 80
    → i < 24
    → Rewrote (i * 80 + j) n (λ q. character_at v (q + 80)) v (scroll_row n j i v)
unfolding scroll_row vga_setch vga_getch
scroll_row-Rewrote zero j i v e h = record {
  inside = λ q lo hi. absurd (omega arith);
  outside = λ q out. refl;
}
scroll_row-Rewrote (suc n) j i v e h =
    let v' = vga_setch j i (vga_getch j (i + 1) v) v in
    let rest = scroll_row-Rewrote n (j + 1) i v' (omega arith) h in
    record {
      inside = λ q lo hi. elim (ℕ_discrete q (i * 80 + j)) [
        | yes here ↦
            let got = rest.outside q (ground arith) in
            (ap (λ s. s.character) got ∙ ground arith, ap (λ s. s.color) got ∙ ground arith)
        | no later ↦
            let got = rest.inside q (omega arith) (omega arith) in
            (got.0 ∙ ground arith, got.1 ∙ ground arith)
      ];
      outside = λ q out. rest.outside q (ground arith) ∙ ground arith;
    }

scroll_rows-Rewrote :
    (n i : ℕ) (v : Vga)
    → i + n ≡ 24
    → Rewrote (i * 80) (n * 80) (λ q. character_at v (q + 80)) v (scroll_rows n i v)
unfolding scroll_rows
scroll_rows-Rewrote zero i v e = record {
  inside = λ q lo hi. absurd (omega arith);
  outside = λ q out. refl;
}
scroll_rows-Rewrote (suc n) i v e =
    let row = scroll_row-Rewrote 80 0 i v refl (omega arith) in
    let rest = scroll_rows-Rewrote n (i + 1) (scroll_row 80 0 i v) (omega arith) in
    record {
      inside = λ q lo hi. elim (dec_lt q (i * 80 + 80)) [
        | yes here ↦
            let got = row.inside q (omega arith) (omega arith) in
            let kept = rest.outside q (ground arith) in
            (ap (λ s. s.character) kept ∙ got.0, ap (λ s. s.color) kept ∙ got.1)
        | no later ↦
            let got = rest.inside q (omega arith) (omega arith) in
            let source = row.outside (q + 80) (ground arith) in
            let old = row.outside q (ground arith) in
            (got.0 ∙ ap (λ s. s.character) source, got.1 ∙ ap (λ s. s.color) old)
      ];
      outside = λ q out. rest.outside q (ground arith) ∙ row.outside q (ground arith);
    }

blank_row-Rewrote :
    (n j : ℕ) (v : Vga) → j + n ≡ 80 → Rewrote (1920 + j) n (λ q. blank_char) v (blank_row n j v)
unfolding blank_row vga_setch
blank_row-Rewrote zero j v e = record {
  inside = λ q lo hi. absurd (omega arith);
  outside = λ q out. refl;
}
blank_row-Rewrote (suc n) j v e =
    let v' = vga_setch j 24 blank_char v in
    let rest = blank_row-Rewrote n (j + 1) v' (omega arith) in
    record {
      inside = λ q lo hi. elim (ℕ_discrete q (1920 + j)) [
        | yes here ↦
            let got = rest.outside q (ground arith) in
            (ap (λ s. s.character) got ∙ ground arith, ap (λ s. s.color) got ∙ ground arith)
        | no later ↦
            let got = rest.inside q (omega arith) (omega arith) in (got.0, got.1 ∙ ground arith)
      ];
      outside = λ q out. rest.outside q (ground arith) ∙ ground arith;
    }

-- Once the cursor is below the last row, `scroll` moves the characters of each row one row up,
-- blanks the last row, writes nothing else (every cell keeps its colour), and puts the cursor at
-- the start of the last row. Before that it changes nothing.
pub scroll_lem :
    (curr : Cursor) (v : Vga)
    → let (curr', v') = scroll curr v in
      ((curr.y < 25) × (curr' ≡ curr) × (v' ≡ v))
      ⊎ ((25 ≤ curr.y)
          × (curr' ≡ record { x = 0; y = 24 })
          × ((q : ℕ)
              → q < 1920
              → (v'.video_memory q).character ≡ (v.video_memory (q + 80)).character)
          × ((q : ℕ) → 1920 ≤ q → q < 2000 → (v'.video_memory q).character ≡ blank_char)
          × ((q : ℕ) → (v'.video_memory q).color ≡ (v.video_memory q).color)
          × ((q : ℕ) → 2000 ≤ q → v'.video_memory q ≡ v.video_memory q))
unfolding scroll
scroll_lem curr v = elim (dec_lt curr.y 25) [
  | yes above ↦ inl (above, ground arith, ground arith)
  | no below ↦
      let rows = scroll_rows-Rewrote 24 0 v refl in
      let last = blank_row-Rewrote 80 0 (scroll_rows 24 0 v) refl in
      let test : leb 25 curr.y ≡ true = ground arith in
      inr (
        omega arith,
        rw test,
        λ q lt. rw test (
            ap (λ s. s.character) (last.outside q (omega arith))
            ∙ (rows.inside q (omega arith) (omega arith)).0),
        λ q lo hi. rw test (last.inside q (omega arith) (omega arith)).0,
        λ q. rw test (colors q),
        λ q out. rw test (last.outside q (omega arith) ∙ rows.outside q (omega arith)),
      )
]
  where
    in_rows : (q : ℕ) → ((scroll_rows 24 0 v).video_memory q).color ≡ (v.video_memory q).color
    in_rows q =
        let rows = scroll_rows-Rewrote 24 0 v refl in
        elim (dec_lt q 1920) [
          | yes inside ↦ (rows.inside q (omega arith) (omega arith)).1
          | no outside ↦ ap (λ s. s.color) (rows.outside q (omega arith))
        ]

    colors :
        (q : ℕ)
        → ((blank_row 80 0 (scroll_rows 24 0 v)).video_memory q).color ≡ (v.video_memory q).color
    colors q =
        let last = blank_row-Rewrote 80 0 (scroll_rows 24 0 v) refl in
        elim (dec_lt q 1920) [
          | yes before ↦ ap (λ s. s.color) (last.outside q (omega arith)) ∙ in_rows q
          | no not_before ↦ elim (dec_lt q 2000) [
            | yes inside ↦ (last.inside q (omega arith) (omega arith)).1 ∙ in_rows q
            | no behind ↦ ap (λ s. s.color) (last.outside q (omega arith)) ∙ in_rows q
          ]
        ]
