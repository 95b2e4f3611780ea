-- ===== src/Keyboard/Tests.antt =====
-- Shift, `a`, then a read.
use nonameos.Prelude.{ℕ, ◌≡◌, List, [], ◌∷◌, arith}
use nonameos.Keyboard.Keys.{after, Tracks, after-Tracks}
use nonameos.Keyboard.Typing.{Event, scan, read, outputs, spec_outputs, outputs_refine}
use nonameos.Keyboard.{boot}

abbrev events : List Event
events = scan 0x2A ∷ scan 0x1E ∷ scan 0x9E ∷ scan 0xAA ∷ scan 0x1E ∷ read ∷ read ∷ read ∷ []

outputs_refine_example : outputs events boot ≡ spec_outputs events boot.state []
outputs_refine_example = outputs_refine events

abbrev history : List ℕ
history = 0x3A ∷ 0x9E ∷ 0x1E ∷ 0x2A ∷ []

after-Tracks_example : Tracks history (after history).state
after-Tracks_example =
    after-Tracks history (omega arith, (omega arith, (omega arith, (omega arith, tt))))
