-- ===== src/Stdio/Putc.antt =====
-- `putc` and the cursor.
use Prim.Native.Nat.{bit_and, bit_or}
use almorina_os.Prelude.{
  ℕ, ◌+◌, ◌*◌, ◌/◌, ◌≤◌, ◌<◌, ◌≡◌, ◌≢◌, refl, ap, ◌∙◌, arith, inl, inr, true, false, ◌&&◌, leb, ltb,
  ◌==◌, ==→eq,
}
use almorina_os.Prelude.Words.{u8}
use almorina_os.Prelude.Table.{all_below, all_below_sound, all_pairs_sound}
use almorina_os.Vga.{Vga, Cursor, vga_setcell, vga_setcurr, vga_movcurr}
use almorina_os.Stdio.{Stdio, putc_char, wrap, scroll, putc}
use almorina_os.Stdio.Scroll.{scroll_lem}

abbrev pub OnScreen : Cursor → Type 0
OnScreen curr = (curr.x < 80) × (curr.y < 25)

tab_table : all_below 80 (λ x. u8 (bit_and (x + 8) 0xffff_fff8) == (x / 8 + 1) * 8) ≡ true
unfolding all_below
tab_table = refl

pub tab_stop : (x : ℕ) → x < 80 → u8 (bit_and (x + 8) 0xffff_fff8) ≡ (x / 8 + 1) * 8
tab_stop x h = ==→eq _ _ (all_below_sound 80 _ x tab_table h)

putc_char_bounds :
    (c : ℕ) (io : Stdio)
    → OnScreen io.vga.cursor
    → ((putc_char c io).0.x ≤ 80) × ((putc_char c io).0.y ≤ 25)
unfolding putc_char
putc_char_bounds c io on = ground (arith, tab_stop io.vga.cursor.x on.0)

wrap_bounds :
    (curr : Cursor) → curr.x ≤ 80 → curr.y ≤ 25 → ((wrap curr).x < 80) × ((wrap curr).y ≤ 26)
unfolding wrap
wrap_bounds curr hx hy = ground arith

scroll-OnScreen : (curr : Cursor) (v : Vga) → curr.x < 80 → OnScreen (scroll curr v).0
scroll-OnScreen curr v h = elim (scroll_lem curr v) [
  | inl (above, same, _) ↦ rw same (h, above)
  | inr (below, at, _, _, _, _) ↦ rw at (omega arith)
]

-- From a cursor on the screen, `putc` of any character leaves the cursor on the screen.
pub putc-OnScreen : (c : ℕ) (io : Stdio) → OnScreen io.vga.cursor → OnScreen (putc c io).vga.cursor
unfolding putc vga_movcurr vga_setcurr
putc-OnScreen c io on =
    let bounds = putc_char_bounds c io on in
    let wrapped = wrap_bounds (putc_char c io).0 bounds.0 bounds.1 in
    let fits = scroll-OnScreen (wrap (putc_char c io).0) (putc_char c io).1 wrapped.0 in
    omega (arith, fits.0, fits.1)

putc_char-frame :
    (c : ℕ) (io : Stdio) (q : ℕ)
    → OnScreen io.vga.cursor
    → 2000 ≤ q
    → (putc_char c io).1.video_memory q ≡ io.vga.video_memory q
unfolding putc_char vga_setcell
putc_char-frame c io q on out = ground arith

-- From a cursor on the screen, `putc` writes no cell behind the 2000 of the screen.
putc-frame :
    (c : ℕ) (io : Stdio) (q : ℕ)
    → OnScreen io.vga.cursor
    → 2000 ≤ q
    → (putc c io).vga.video_memory q ≡ io.vga.video_memory q
unfolding putc vga_movcurr vga_setcurr
putc-frame c io q on out =
    let first = putc_char-frame c io q on out in
    elim (scroll_lem (wrap (putc_char c io).0) (putc_char c io).1) [
      | inl (_, _, same) ↦ ap (λ (v : Vga). v.video_memory q) same ∙ first
      | inr (_, _, _, _, _, kept) ↦ kept q out ∙ first
    ]

putc_char-printable :
    (c : ℕ) (io : Stdio)
    → 32 ≤ c
    → c < 128
    → putc_char c io ≡ (
      record io.vga.cursor { x = u8 (io.vga.cursor.x + 1) },
      vga_setcell io.vga.cursor.x io.vga.cursor.y c io.fg_color io.bg_color io.vga,
    )
unfolding putc_char
putc_char-printable c io lo hi =
    let back : (c == 8) ≡ false = ground arith in
    let tab : (c == 9) ≡ false = ground arith in
    let return : (c == 13) ≡ false = ground arith in
    let newline : (c == 10) ≡ false = ground arith in
    let printable : (leb 32 c && ltb c 128) ≡ true = ground arith in
    rw (back, tab, return, newline, printable)

wrap-next :
    (curr : Cursor) (x y : ℕ)
    → x < 80
    → y * 80 + x < 1999
    → curr ≡ record { x = u8 (x + 1); y = y }
    → ((wrap curr).y < 25)
      × ((wrap curr).y * 80 + (wrap curr).x ≡ y * 80 + x + 1)
      × ((wrap curr).x < 80)
unfolding wrap
wrap-next curr x y hx room e = rw e (ground arith)

colors_table :
    all_below 16 (λ bg. all_below 16 λ fg. u8 (bit_or (u8 bg * 16) (u8 fg)) == bg * 16 + fg) ≡ true
unfolding all_below
colors_table = refl

vga_setcell_lem :
    (io : Stdio) (c : ℕ)
    → OnScreen io.vga.cursor
    → io.fg_color < 16
    → io.bg_color < 16
    → let p = io.vga.cursor.y * 80 + io.vga.cursor.x in
      let v = vga_setcell io.vga.cursor.x io.vga.cursor.y c io.fg_color io.bg_color io.vga in
      ((v.video_memory p).character ≡ c)
      × ((v.video_memory p).color ≡ io.bg_color * 16 + io.fg_color)
      × ((q : ℕ) → q ≢ p → v.video_memory q ≡ io.vga.video_memory q)
unfolding vga_setcell
vga_setcell_lem io c on fg bg =
    let both : u8 (bit_or (u8 io.bg_color * 16) (u8 io.fg_color)) ≡ io.bg_color * 16 + io.fg_color =
      ==→eq _ _ (all_pairs_sound 16 16 _ io.bg_color io.fg_color colors_table bg fg) in
    (ground arith, ground (arith, both), λ q other. ground arith)

-- A printable character goes to the cell under the cursor, in the two colours of the console, and
-- no other cell changes; the cursor moves one column on, or to the next row from the last column.
-- It must not stand in the last cell of the screen.
putc-printable :
    (c : ℕ) (io : Stdio)
    → OnScreen io.vga.cursor
    → 32 ≤ c
    → c < 128
    → io.vga.cursor.y * 80 + io.vga.cursor.x < 1999
    → io.fg_color < 16
    → io.bg_color < 16
    → let p = io.vga.cursor.y * 80 + io.vga.cursor.x in
      let v = (putc c io).vga in
      ((v.video_memory p).character ≡ c)
      × ((v.video_memory p).color ≡ io.bg_color * 16 + io.fg_color)
      × ((q : ℕ) → q ≢ p → v.video_memory q ≡ io.vga.video_memory q)
      × (v.cursor.y * 80 + v.cursor.x ≡ p + 1)
unfolding putc vga_movcurr vga_setcurr
putc-printable c io on lo hi room fg bg =
    let char = putc_char-printable c io lo hi in
    let next =
      wrap-next (putc_char c io).0 (io.vga.cursor.x) (io.vga.cursor.y) on.0 room
        (ap (λ r. r.0) char) in
    elim (scroll_lem (wrap (putc_char c io).0) (putc_char c io).1) [
      | inr (below, _, _, _, _, _) ↦ absurd (omega arith)
      | inl (above, same, kept) ↦
          let cell = vga_setcell_lem io c on fg bg in
          let v' = kept ∙ ap (λ r. r.1) char in
          (
            ap (λ (v : Vga). (v.video_memory (io.vga.cursor.y * 80 + io.vga.cursor.x)).character) v'
                ∙ cell.0,
            ap (λ (v : Vga). (v.video_memory (io.vga.cursor.y * 80 + io.vga.cursor.x)).color) v'
                ∙ cell.1,
            λ q other. ap (λ (v : Vga). v.video_memory q) v' ∙ cell.2 q other,
            rw same (omega (arith, next.0, next.1)),
          )
    ]
