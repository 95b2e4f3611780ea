-- ===== src/Screen/Bounds.antt =====
-- The writer of kernel/src/vga.rs stays inside of its buffer.
use nonameos.Prelude.{
  ℕ, zero, suc, ◌+◌, ◌≡◌, ◌≤◌, ◌<◌, ◌⊎◌, refl, ap, ◌∙◌, List, [], ◌∷◌, leb, ◌==◌, if◌then◌else◌,
  Bool-cases, inl, inr, arith,
}
use nonameos.Screen.{
  VgaChar, Screen, vga_width, vga_height, clear_cells, move_cells, put_cell, cell_at, blank, scroll,
  new_line, put_byte, write_byte, write_string, is_printable,
}

-- The number of cells.
abbrev pub cell_count : ℕ
cell_count = 2000

pub record IsScreen (s : Screen) : Type 0 where
  pub row_inside : s.row < vga_height
  pub col_inside : s.col ≤ vga_width

clear_cells-outside :
    (n at x : ℕ) (ch : VgaChar) (cells : ℕ → VgaChar)
    → (x < at) ⊎ (at + n ≤ x)
    → clear_cells n at ch cells x ≡ cells x
unfolding clear_cells
clear_cells-outside zero at x ch cells out = refl
clear_cells-outside (suc n) at x ch cells (inl low) =
    clear_cells-outside n (at + 1) x ch (put_cell at ch cells) (inl (omega (arith, low)))
    ∙ ground (arith, low)
clear_cells-outside (suc n) at x ch cells (inr high) =
    clear_cells-outside n (at + 1) x ch (put_cell at ch cells) (inr (omega (arith, high)))
    ∙ ground (arith, high)

clear_cells-inside :
    (n at x : ℕ) (ch : VgaChar) (cells : ℕ → VgaChar)
    → at ≤ x
    → x < at + n
    → clear_cells n at ch cells x ≡ ch
unfolding clear_cells
clear_cells-inside zero at x ch cells lo hi = absurd (omega (arith, lo, hi))
clear_cells-inside (suc n) at x ch cells lo hi = elim (Bool-cases (x == at)) [
  | inl here ↦
      clear_cells-outside n (at + 1) x ch (put_cell at ch cells) (inl (ground (arith, here)))
      ∙ ground (arith, here)
  | inr on ↦
      clear_cells-inside n (at + 1) x ch (put_cell at ch cells) (ground (arith, lo, on))
        (omega (arith, hi))
]

move_cells-outside :
    (n at x : ℕ) (cells : ℕ → VgaChar) → (x < at) ⊎ (at + n ≤ x) → move_cells n at cells x ≡ cells x
unfolding move_cells
move_cells-outside zero at x cells out = refl
move_cells-outside (suc n) at x cells (inl low) =
    move_cells-outside n (at + 1) x (put_cell at (cells (at + vga_width)) cells)
      (inl (omega (arith, low)))
    ∙ ground (arith, low)
move_cells-outside (suc n) at x cells (inr high) =
    move_cells-outside n (at + 1) x (put_cell at (cells (at + vga_width)) cells)
      (inr (omega (arith, high)))
    ∙ ground (arith, high)

-- The cells that are moved come from the row below.
move_cells-inside :
    (n at x : ℕ) (cells : ℕ → VgaChar)
    → at ≤ x
    → x < at + n
    → move_cells n at cells x ≡ cells (x + vga_width)
unfolding move_cells
move_cells-inside zero at x cells lo hi = absurd (omega (arith, lo, hi))
move_cells-inside (suc n) at x cells lo hi = elim (Bool-cases (x == at)) [
  | inl here ↦
      move_cells-outside n (at + 1) x (put_cell at (cells (at + vga_width)) cells)
        (inl (ground (arith, here)))
      ∙ ground (arith, here)
  | inr on ↦
      move_cells-inside n (at + 1) x (put_cell at (cells (at + vga_width)) cells)
        (ground (arith, lo, on)) (omega (arith, hi))
      ∙ ground (arith, lo)
]

-- What `scroll` makes of the cells.
pub record Scrolled (s t : Screen) : Type 0 where
  pub moved :
      (row col : ℕ)
      → row < 24
      → col < 80
      → t.cells (cell_at row col) ≡ s.cells (cell_at (row + 1) col)
  pub cleared : (col : ℕ) → col < 80 → t.cells (cell_at 24 col) ≡ blank s.color
  pub elsewhere : (x : ℕ) → cell_count ≤ x → t.cells x ≡ s.cells x

-- `scroll` moves each of the rows below the first up by one, whatever they hold, leaves blanks in
-- the current color in the last row, and changes nothing outside of the buffer.
pub scroll-Scrolled : (s : Screen) → Scrolled s (scroll s)
unfolding scroll
scroll-Scrolled s =
    let above = move_cells 1920 0 s.cells in
    record {
      moved = λ row col lt in_row.
          clear_cells-outside 80 1920 (cell_at row col) (blank s.color) above
            (inl (omega (arith, lt, in_row)))
          ∙ move_cells-inside 1920 0 (cell_at row col) s.cells (omega arith)
              (omega (arith, lt, in_row))
          ∙ ap s.cells (omega arith);
      cleared = λ col in_row.
          clear_cells-inside 80 1920 (cell_at 24 col) (blank s.color) above (omega arith)
            (omega (arith, in_row));
      elsewhere = λ x high.
          clear_cells-outside 80 1920 x (blank s.color) above (inr high)
          ∙ move_cells-outside 1920 0 x s.cells (inr (omega (arith, high)));
    }

-- The cursor is inside, and no cell outside of the buffer has changed.
pub record Kept (s t : Screen) : Type 0 where
  pub screen : IsScreen t
  pub untouched : (x : ℕ) → cell_count ≤ x → t.cells x ≡ s.cells x

Kept-trans : (s t u : Screen) → Kept s t → Kept t u → Kept s u
Kept-trans s t u a b = record {
  screen = b.screen;
  untouched = λ x high. b.untouched x high ∙ a.untouched x high;
}

new_line-Kept : (s : Screen) → IsScreen s → Kept s (new_line s)
unfolding new_line scroll
new_line-Kept s v = elim (Bool-cases (leb 24 s.row)) [
  | inl full ↦ rw full (record {
    screen = record { row_inside = v.row_inside; col_inside = omega arith };
    untouched = (scroll-Scrolled s).elsewhere;
  })
  | inr room ↦ rw room (record {
    screen = record { row_inside = ground (arith, room); col_inside = omega arith };
    untouched = λ x high. refl;
  })
]

put_byte-Kept : (byte : ℕ) (s : Screen) → IsScreen s → s.col < vga_width → Kept s (put_byte byte s)
unfolding put_byte
put_byte-Kept byte s v lt = record {
  screen = record { row_inside = v.row_inside; col_inside = omega (arith, lt) };
  untouched = λ x high. ground (arith, high, lt, v.row_inside);
}

new_line-col : (s : Screen) → (new_line s).col ≡ 0
unfolding new_line
new_line-col s = refl

write_byte-Kept : (byte : ℕ) (s : Screen) → IsScreen s → Kept s (write_byte byte s)
unfolding write_byte
write_byte-Kept byte s v = elim (Bool-cases (byte == 10)) [
  | inl line ↦ rw line (new_line-Kept s v)
  | inr other ↦ elim (Bool-cases (leb vga_width s.col)) [
    | inl wide ↦
        let fresh = new_line-Kept s v in
        rw (other, wide)
          (Kept-trans s (new_line s) (put_byte byte (new_line s)) fresh
            (put_byte-Kept byte (new_line s) fresh.screen (omega (arith, new_line-col s))))
    | inr room ↦ rw (other, room) (put_byte-Kept byte s v (ground (arith, room)))
  ]
]

-- With the cursor inside the screen, at the right edge at most, `write_string` leaves it there for
-- every string, and changes no cell outside of the 2000 of the buffer.
pub write_string-Kept : (string : List ℕ) (s : Screen) → IsScreen s → Kept s (write_string string s)
unfolding write_string
write_string-Kept [] s v = record { screen = v; untouched = λ x high. refl }
write_string-Kept (byte ∷ rest) s v =
    let shown = if is_printable byte then byte else 0xfe in
    let first = write_byte-Kept shown s v in
    Kept-trans s (write_byte shown s) (write_string rest (write_byte shown s)) first
      (write_string-Kept rest (write_byte shown s) first.screen)
