-- ===== src/Keyboard.antt =====
-- kernel/src/keyboard.rs: the scan-code state machine and the input buffer.
-- The echo to the screen is left out: it reads nothing that is modelled.
pub mod Layout
pub mod Buffer
pub mod Keys
pub mod Typing
mod Tests
use nonameos.Prelude.{
  ℕ, ◌+◌, ◌-◌, ◌%◌, ◌/◌, Bool, true, false, not, ◌||◌, List, Option, none, some, get_or, set,
  replicate, ltb, leb, ◌==◌, if◌then◌else◌, add_usize, sub_usize,
}
use Layout.{scancode_to_ascii, scancode_to_ascii_shift}
use mathlib.Core.Bool.{xor}

pub record KeyboardState : Type 0 where
  pub left_shift : Bool
  pub right_shift : Bool
  pub caps_lock : Bool
  pub ctrl : Bool
  pub alt : Bool

unfoldable pub new_state : KeyboardState
new_state = record {
  left_shift = false;
  right_shift = false;
  caps_lock = false;
  ctrl = false;
  alt = false;
}

abbrev pub shift : KeyboardState → Bool
shift s = s.left_shift || s.right_shift

unfoldable pub uppercase : KeyboardState → Bool
uppercase s = xor (shift s) s.caps_lock

abbrev pub input_buf_size : ℕ
input_buf_size = 256

-- `items` is the array `data`.
pub record InputBuffer : Type 0 where
  pub items : List ℕ
  pub read_pos : ℕ
  pub write_pos : ℕ
  pub count : ℕ

unfoldable pub new_buffer : InputBuffer
new_buffer = record { items = replicate input_buf_size 0; read_pos = 0; write_pos = 0; count = 0 }

-- A character that finds the buffer full is lost.
unfoldable pub push : InputBuffer → ℕ → InputBuffer
push b ch =
    if ltb b.count input_buf_size
    then record b {
      items = set b.items b.write_pos ch;
      write_pos = add_usize b.write_pos 1 % input_buf_size;
      count = add_usize b.count 1;
    }
    else b

unfoldable pub pop : InputBuffer → Option ℕ × InputBuffer
pop b = if b.count == 0 then (none, b) else (
  some (get_or b.items b.read_pos 0),
  record b { read_pos = add_usize b.read_pos 1 % input_buf_size; count = sub_usize b.count 1 },
)

-- The statics STATE and INPUT.
pub record Keyboard : Type 0 where
  pub state : KeyboardState
  pub input : InputBuffer

unfoldable pub boot : Keyboard
unfolding new_state new_buffer
boot = record { state = new_state; input = new_buffer }

-- `scancode & 0x80 != 0` and `scancode & 0x7F` on a `u8`.
abbrev pub released : ℕ → Bool
released scancode = leb 128 scancode

abbrev pub code : ℕ → ℕ
code scancode = scancode % 128

-- The character of a key, 0 if it has none.
unfoldable pub char_of : KeyboardState → ℕ → ℕ
unfolding uppercase
char_of s c =
    if uppercase s then get_or scancode_to_ascii_shift c 0 else get_or scancode_to_ascii c 0

unfoldable pub press_key : Keyboard → ℕ → Keyboard
press_key k ch = if ch == 0 then k else record k { input = push k.input ch }

unfoldable pub handle_scancode : ℕ → Keyboard → Keyboard
handle_scancode scancode k =
    let down = not (released scancode) in
    let c = code scancode in
    if c == 0x2A
    then record k { state = record (k.state) { left_shift = down } }
    else if c == 0x36
    then record k { state = record (k.state) { right_shift = down } }
    else if c == 0x1D
    then record k { state = record (k.state) { ctrl = down } }
    else if c == 0x38
    then record k { state = record (k.state) { alt = down } }
    else if released scancode
    then k
    else if c == 0x3A
    then record k { state = record (k.state) { caps_lock = not k.state.caps_lock } }
    else press_key k (char_of k.state c)

unfoldable pub read_char : Keyboard → Option ℕ × Keyboard
read_char k = let (ch, input) = pop k.input in (ch, record k { input = input })

unfoldable pub has_input : Keyboard → Bool
has_input k = ltb 0 k.input.count
