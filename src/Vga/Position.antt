-- ===== src/Vga/Position.antt =====
-- The bytes that `vga_movcurr` sends.
use Prim.Native.Nat.{bit_and}
use almorina_os.Prelude.{
  ℕ, ◌+◌, ◌*◌, ◌<◌, ◌≡◌, ◌↔◌, refl, arith, true, not, ◌==◌, ltb, ◌∷◌, if◌then◌else◌,
}
use almorina_os.Prelude.Words.{u8}
use almorina_os.Prelude.Table.{all_below, all_below_sound}
use almorina_os.Vga.{Vga, currpos, vga_movcurr}

halves_table :
    all_below 2000 (λ p.
      let right = u8 (bit_and p 0xf0) * 256 + u8 (bit_and p 0x0f) == p in
      if right then ltb p 16 else not (ltb p 16))
    ≡ true
unfolding all_below
halves_table = refl

halves-eq : (p : ℕ) → p < 2000 → (u8 (bit_and p 0xf0) * 256 + u8 (bit_and p 0x0f) ≡ p) ↔ (p < 16)
halves-eq p small =
    let fact = all_below_sound 2000 _ p halves_table small in
    (λ right. ground arith, λ few. ground arith)

-- For a cursor on the screen `vga_movcurr` sends a high byte behind index 14 and then a low byte
-- behind index 15, and the two make up the cursor's position exactly if that is below 16.
vga_movcurr_bytes :
    (v : Vga)
    → v.cursor.x < 80
    → v.cursor.y < 25
    → (high : ℕ) × (low : ℕ) × ((vga_movcurr v).ports
        ≡ (0x3d5, low) ∷ (0x3d4, 15) ∷ (0x3d5, high) ∷ (0x3d4, 14) ∷ v.ports)
      × ((high * 256 + low ≡ v.cursor.y * 80 + v.cursor.x) ↔ (v.cursor.y * 80 + v.cursor.x < 16))
unfolding vga_movcurr
vga_movcurr_bytes v hx hy =
    let whole : currpos v ≡ v.cursor.y * 80 + v.cursor.x = omega arith in
    let exact = halves-eq (v.cursor.y * 80 + v.cursor.x) (omega arith) in
    (u8 (bit_and (currpos v) 0xf0), u8 (bit_and (currpos v) 0x0f), refl, rw whole exact)
