-- ===== src/Screen/Tests.antt =====
-- A screen of spaces, with the cursor in its last row.
use nonameos.Prelude.{◌≡◌, refl, [], ◌∷◌, arith}
use nonameos.Screen.{Screen, color_code, scroll, write_string, write_byte, put_byte, new_line}
use nonameos.Screen.Bounds.{Scrolled, Kept, scroll-Scrolled, write_string-Kept}

abbrev screen : Screen
screen = record {
  col = 79;
  row = 24;
  color = color_code 10 0;
  cells = λ n. record { ascii = n; color = 7 };
}

scroll-Scrolled_example : Scrolled screen (scroll screen)
scroll-Scrolled_example = scroll-Scrolled screen

write_string-Kept_example : Kept screen (write_string (65 ∷ 66 ∷ 10 ∷ []) screen)
write_string-Kept_example =
    write_string-Kept (65 ∷ 66 ∷ 10 ∷ []) screen
      (record { row_inside = omega arith; col_inside = omega arith })

-- The second byte goes to a new line.
wraps : (write_string (65 ∷ 66 ∷ []) screen).col ≡ 1
unfolding write_string write_byte put_byte new_line scroll
wraps = refl
