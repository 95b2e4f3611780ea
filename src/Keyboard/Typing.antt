-- ===== src/Keyboard/Typing.antt =====
-- The keyboard seen from its two ends: scan codes go in, characters come out.
use nonameos.Prelude.{
  ℕ, ◌-◌, ◌<◌, ◌≡◌, refl, ap, ap₂, ◌∙◌, Bool, true, not, ◌&&◌, ◌||◌, List, [], ◌∷◌, Option, arith,
  get_or, leb, ◌==◌, if◌then◌else◌,
}
use nonameos.Prelude.Bits.{all_below, all_below_sound}
use nonameos.Keyboard.Layout.{scancode_to_ascii, scancode_to_ascii_shift}
use nonameos.Keyboard.Buffer.{
  IsBuffer, contents, offer, next_char, new-IsBuffer, pop-IsBuffer, pop_refines,
}
use nonameos.Keyboard.Keys.{modifiers, handle_state, typed, handle_contents}
use nonameos.Keyboard.{
  KeyboardState, Keyboard, boot, new_buffer, uppercase, char_of, handle_scancode, read_char,
}

-- An interrupt brings a scan code, or a program reads a character.
pub data Event : Type 0 where
  scan : ℕ → Event
  read : Event

-- What the reads return, in order.
unfoldable pub outputs : List Event → Keyboard → List (Option ℕ)
outputs [] k = []
outputs (scan sc ∷ es) k = outputs es (handle_scancode sc k)
outputs (read ∷ es) k = let (ch, k') = read_char k in ch ∷ outputs es k'

-- The same over a queue of characters: what an event types waits at the end, if it is not full.
unfoldable pub spec_outputs : List Event → KeyboardState → List ℕ → List (Option ℕ)
spec_outputs [] s cs = []
spec_outputs (scan sc ∷ es) s cs =
    spec_outputs es (modifiers s sc) (if typed s sc == 0 then cs else offer cs (typed s sc))
spec_outputs (read ∷ es) s cs = let (ch, cs') = next_char cs in ch ∷ spec_outputs es s cs'

outputs_refine_from :
    (es : List Event) (k : Keyboard)
    → IsBuffer k.input
    → outputs es k ≡ spec_outputs es k.state (contents k.input)
unfolding outputs spec_outputs read_char
outputs_refine_from [] k v = refl
outputs_refine_from (scan sc ∷ es) k v =
    outputs_refine_from es (handle_scancode sc k) (handle_contents sc k v).0
    ∙ ap₂ (spec_outputs es) (handle_state sc k) (handle_contents sc k v).1
outputs_refine_from (read ∷ es) k v = ap₂ ◌∷◌ (ap (λ (p : Option ℕ × List ℕ). p.0) popped) (
    outputs_refine_from es (read_char k).1 (pop-IsBuffer k.input v)
    ∙ ap (λ (p : Option ℕ × List ℕ). spec_outputs es k.state p.1) popped)
  where
    popped : ((read_char k).0, contents (read_char k).1.input) ≡ next_char (contents k.input)
    popped = pop_refines k.input v

-- From boot on, for any interleaving of scan codes and reads, the reads return what the queue of
-- typed characters gives: in order, none twice, and only those lost that find 256 waiting.
pub outputs_refine : (es : List Event) → outputs es boot ≡ spec_outputs es boot.state []
unfolding boot new_buffer
outputs_refine es = outputs_refine_from es boot new-IsBuffer

-- `a`..`z`, as an unshifted key.
abbrev pub is_letter : ℕ → Bool
is_letter ch = leb 97 ch && leb ch 122

letter_table :
    all_below 128 (λ c.
      not (is_letter (get_or scancode_to_ascii c 0))
      || (get_or scancode_to_ascii_shift c 0 == get_or scancode_to_ascii c 0 - 32))
    ≡ true
unfolding all_below
letter_table = refl

case_law :
    (small big : ℕ) (u : Bool)
    → (not (is_letter small) || (big == small - 32)) ≡ true
    → is_letter small ≡ true
    → (if u then big else small) ≡ (if u then small - 32 else small)
case_law small big u law letter = ground arith

-- A letter key, by a code below 128, types its capital exactly if Shift and CapsLock differ, and
-- its small letter otherwise.
letter_case :
    (s : KeyboardState) (c : ℕ)
    → c < 128
    → is_letter (get_or scancode_to_ascii c 0) ≡ true
    → char_of s c
      ≡ (if uppercase s then get_or scancode_to_ascii c 0 - 32 else get_or scancode_to_ascii c 0)
unfolding char_of
letter_case s c byte letter =
    case_law _ _ (uppercase s) (all_below_sound _ 128 letter_table c byte) letter
