-- ===== src/Vga.antt =====
-- The text screen, src/c-code/vga.c: video memory as a cell at every index, the cursor, and the
-- bytes that were sent to the ports, the last one first. Coordinates are `uint8_t`, and a colour is
-- its number in `enum Color16`.
pub mod Colors
pub mod Position
use Prim.Native.Nat.{bit_and, bit_or}
use almorina_os.Prelude.{ℕ, ◌+◌, ◌*◌, List, ◌∷◌}
use almorina_os.Prelude.Words.{u8, u16}
use almorina_os.Prelude.Store.{update}

-- `screen_cell_t`
pub record ScreenCell : Type 0 where
  pub character : ℕ
  pub color : ℕ

-- `cursor_t`
pub record Cursor : Type 0 where
  pub x : ℕ
  pub y : ℕ

pub record Vga : Type 0 where
  pub video_memory : ℕ → ScreenCell
  pub cursor : Cursor
  pub ports : List (ℕ × ℕ)

abbrev pub screen_width : ℕ
screen_width = 80

abbrev pub screen_height : ℕ
screen_height = 25

-- The index of a cell in video memory.
abbrev pub vga_getcell : ℕ → ℕ → ℕ
vga_getcell x y = u8 y * screen_width + u8 x

unfoldable pub vga_setch : ℕ → ℕ → ℕ → Vga → Vga
vga_setch x y ch v =
    let p = vga_getcell x y in
    let cell = v.video_memory p in
    record v { video_memory = update v.video_memory p (record cell { character = ch }) }

unfoldable pub vga_getch : ℕ → ℕ → Vga → ℕ
vga_getch x y v = (v.video_memory (vga_getcell x y)).character

abbrev pub recolor : ℕ → ℕ → Vga → Vga
recolor p c v =
    let cell = v.video_memory p in
    record v { video_memory = update v.video_memory p (record cell { color = c }) }

unfoldable pub vga_setfg : ℕ → ℕ → ℕ → Vga → Vga
vga_setfg x y c v =
    let p = vga_getcell x y in
    let bg_color = bit_and (v.video_memory p).color 0xf0 in recolor p (u8 (bit_or bg_color c)) v

unfoldable pub vga_setbg : ℕ → ℕ → ℕ → Vga → Vga
vga_setbg x y c v =
    let p = vga_getcell x y in
    let fg_color = bit_and (v.video_memory p).color 0x0f in
    recolor p (u8 (bit_or (c * 16) fg_color)) v

unfoldable pub vga_setcolors : ℕ → ℕ → ℕ → ℕ → Vga → Vga
vga_setcolors x y fg bg v = recolor (vga_getcell x y) (u8 (bit_or (u8 bg * 16) (u8 fg))) v

unfoldable pub vga_setcell : ℕ → ℕ → ℕ → ℕ → ℕ → Vga → Vga
unfolding vga_setch vga_setcolors
vga_setcell x y ch fg bg v = vga_setcolors x y fg bg (vga_setch x y ch v)

abbrev pub vga_getcurr : Vga → Cursor
vga_getcurr v = v.cursor

unfoldable pub vga_setcurr : ℕ → ℕ → Vga → Vga
vga_setcurr x y v = record v { cursor = record { x = u8 x; y = u8 y } }

abbrev pub outb : ℕ → ℕ → Vga → Vga
outb port value v = record v { ports = (port, value) ∷ v.ports }

-- The position of the cursor, and the two bytes that `vga_movcurr` sends for it.
abbrev pub currpos : Vga → ℕ
currpos v = u16 (v.cursor.y * 80 + v.cursor.x)

unfoldable pub vga_movcurr : Vga → Vga
vga_movcurr v =
    outb 0x3d5 (u8 (bit_and (currpos v) 0x0f))
      (outb 0x3d4 15 (outb 0x3d5 (u8 (bit_and (currpos v) 0xf0)) (outb 0x3d4 14 v)))
