-- ===== src/Screen.antt =====
-- kernel/src/vga.rs: the text screen and its writer. A cell of the buffer is numbered by
-- `row * VGA_WIDTH + col`.
pub mod Bounds
mod Tests
use nonameos.Prelude.{
  ℕ, zero, suc, ◌+◌, ◌-◌, ◌*◌, Bool, true, false, ◌&&◌, ◌||◌, List, [], ◌∷◌, ltb, leb, ◌==◌,
  if◌then◌else◌, add_usize,
}

abbrev pub vga_width : ℕ
vga_width = 80

abbrev pub vga_height : ℕ
vga_height = 25

-- `ColorCode::new`: a byte.
abbrev pub color_code : ℕ → ℕ → ℕ
color_code fg bg = bg * 16 + fg

pub record VgaChar : Type 0 where
  pub ascii : ℕ
  pub color : ℕ

-- `Writer`, and the cells from 0xb8000 on.
pub record Screen : Type 0 where
  pub col : ℕ
  pub row : ℕ
  pub color : ℕ
  pub cells : ℕ → VgaChar

abbrev pub cell_at : ℕ → ℕ → ℕ
cell_at row col = row * vga_width + col

abbrev pub put_cell : ℕ → VgaChar → (ℕ → VgaChar) → ℕ → VgaChar
put_cell at ch cells n = if n == at then ch else cells n

abbrev pub blank : ℕ → VgaChar
blank color = record { ascii = 32; color = color }

-- `for col in 0..VGA_WIDTH`, and the same over the cells of all rows: blanks from `at` on.
unfoldable pub clear_cells : ℕ → ℕ → VgaChar → (ℕ → VgaChar) → ℕ → VgaChar
clear_cells zero at ch cells = cells
clear_cells (suc n) at ch cells = clear_cells n (at + 1) ch (put_cell at ch cells)

unfoldable pub clear : Screen → Screen
clear s = record s {
  cells = clear_cells (vga_height * vga_width) 0 (blank s.color) s.cells;
  col = 0;
  row = 0;
}

-- The cells of the rows `1..VGA_HEIGHT`, in their order, each to the row above.
unfoldable pub move_cells : ℕ → ℕ → (ℕ → VgaChar) → ℕ → VgaChar
move_cells zero at cells = cells
move_cells (suc n) at cells = move_cells n (at + 1) (put_cell at (cells (at + vga_width)) cells)

unfoldable pub scroll : Screen → Screen
scroll s = record s {
  cells =
      clear_cells vga_width (cell_at (vga_height - 1) 0) (blank s.color)
        (move_cells ((vga_height - 1) * vga_width) 0 s.cells);
}

unfoldable pub new_line : Screen → Screen
new_line s =
    record (if leb (vga_height - 1) s.row then scroll s else record s { row = s.row + 1 }) {
      col = 0;
    }

-- The character at the cursor, which moves on.
unfoldable pub put_byte : ℕ → Screen → Screen
put_byte byte s = record s {
  cells = put_cell (cell_at s.row s.col) (record { ascii = byte; color = s.color }) s.cells;
  col = s.col + 1;
}

unfoldable pub write_byte : ℕ → Screen → Screen
write_byte byte s =
    if byte == 10 then new_line s else put_byte byte (if leb vga_width s.col then new_line s else s)

abbrev pub is_printable : ℕ → Bool
is_printable byte = (leb 0x20 byte && leb byte 0x7e) || (byte == 10)

unfoldable pub write_string : List ℕ → Screen → Screen
write_string [] s = s
write_string (byte ∷ rest) s =
    write_string rest (write_byte (if is_printable byte then byte else 0xfe) s)
