-- ===== src/Keyboard/Layout.antt =====
-- kernel/src/keyboard.rs: the two scan-code tables, Set 1, US layout. An entry 0 is no character.
-- Control characters: 8 is Backspace, 9 Tab, 10 Enter, 27 Escape; 39 is ', 34 is ", 92 is \.
use nonameos.Prelude.{ℕ, List, ◌∷◌, ◌++◌, replicate}
use nonameos.Prelude.Text.{codes}

abbrev pub scancode_to_ascii : List ℕ
scancode_to_ascii =
    (0 ∷ 27 ∷ codes "1234567890-=")
    ++ (8 ∷ 9 ∷ codes "qwertyuiop[]")
    ++ (10 ∷ 0 ∷ codes "asdfghjkl;")
    ++ (39 ∷ 96 ∷ 0 ∷ 92 ∷ codes "zxcvbnm,./")
    ++ (0 ∷ 42 ∷ 0 ∷ 32 ∷ replicate 70 0)

abbrev pub scancode_to_ascii_shift : List ℕ
scancode_to_ascii_shift =
    (0 ∷ 27 ∷ codes "!@#$%^&*()_+")
    ++ (8 ∷ 9 ∷ codes "QWERTYUIOP{}")
    ++ (10 ∷ 0 ∷ codes "ASDFGHJKL:")
    ++ (34 ∷ 126 ∷ 0 ∷ 124 ∷ codes "ZXCVBNM<>?")
    ++ (0 ∷ 42 ∷ 0 ∷ 32 ∷ replicate 70 0)
