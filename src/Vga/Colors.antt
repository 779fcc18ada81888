-- ===== src/Vga/Colors.antt =====
-- The two halves of a cell's colour byte.
use Prim.Native.Nat.{bit_and, bit_or}
use almorina_os.Prelude.{ℕ, ◌+◌, ◌*◌, ◌/◌, ◌%◌, ◌<◌, ◌≡◌, ◌≢◌, refl, arith, true, ◌==◌, ==→eq}
use almorina_os.Prelude.Words.{u8}
use almorina_os.Prelude.Table.{all_below, all_pairs_sound}
use almorina_os.Vga.{Vga, vga_getcell, vga_setfg, vga_setbg}

foreground_table :
    all_below 256 (λ x. all_below 16 λ c. u8 (bit_or (bit_and x 0xf0) c) == x / 16 * 16 + c) ≡ true
unfolding all_below
foreground_table = refl

background_table :
    all_below 256 (λ x. all_below 16 λ c. u8 (bit_or (c * 16) (bit_and x 0x0f)) == c * 16 + x % 16)
    ≡ true
unfolding all_below
background_table = refl

abbrev pub color_at : ℕ → ℕ → Vga → ℕ
color_at x y v = (v.video_memory (vga_getcell x y)).color

-- `vga_setfg` makes the low half of the cell's colour byte the colour, and keeps the high half, its
-- character and every other cell.
vga_setfg_lem :
    (x y c : ℕ) (v : Vga)
    → c < 16
    → color_at x y v < 256
    → (color_at x y (vga_setfg x y c v) ≡ color_at x y v / 16 * 16 + c)
      × ((p : ℕ) → p ≢ vga_getcell x y → (vga_setfg x y c v).video_memory p ≡ v.video_memory p)
      × ((vga_setfg x y c v).video_memory (vga_getcell x y)).character
        ≡ (v.video_memory (vga_getcell x y)).character
unfolding vga_setfg
vga_setfg_lem x y c v small byte =
    let merged : u8 (bit_or (bit_and (color_at x y v) 0xf0) c) ≡ color_at x y v / 16 * 16 + c =
      ==→eq _ _ (all_pairs_sound 256 16 _ (color_at x y v) c foreground_table byte small) in
    (ground (arith, merged), λ p other. ground arith, ground arith)

-- `vga_setbg` makes the high half of the cell's colour byte the colour, and keeps the low half, its
-- character and every other cell.
vga_setbg_lem :
    (x y c : ℕ) (v : Vga)
    → c < 16
    → color_at x y v < 256
    → (color_at x y (vga_setbg x y c v) ≡ c * 16 + color_at x y v % 16)
      × ((p : ℕ) → p ≢ vga_getcell x y → (vga_setbg x y c v).video_memory p ≡ v.video_memory p)
      × ((vga_setbg x y c v).video_memory (vga_getcell x y)).character
        ≡ (v.video_memory (vga_getcell x y)).character
unfolding vga_setbg
vga_setbg_lem x y c v small byte =
    let merged : u8 (bit_or (c * 16) (bit_and (color_at x y v) 0x0f))
        ≡ c * 16 + color_at x y v % 16 =
      ==→eq _ _ (all_pairs_sound 256 16 _ (color_at x y v) c background_table byte small) in
    (ground (arith, merged), λ p other. ground arith, ground arith)
