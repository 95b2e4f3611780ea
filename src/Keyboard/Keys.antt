-- ===== src/Keyboard/Keys.antt =====
-- The scan-code state machine: modifiers against the history of the keys, and what is typed.
use nonameos.Prelude.{
  ℕ, ◌+◌, ◌%◌, ◌<◌, ◌≡◌, refl, Bool, false, not, ◌&&◌, ◌||◌, List, [], ◌∷◌, arith, ◌==◌,
  if◌then◌else◌, Bool-cases, inl, inr,
}
use nonameos.Keyboard.Buffer.{IsBuffer, contents, offer, push-IsBuffer, push_refines}
use nonameos.Keyboard.{
  KeyboardState, Keyboard, boot, released, code, char_of, press_key, handle_scancode,
}

-- The keyboard after a history of scan codes, the latest first.
unfoldable pub after : List ℕ → Keyboard
after [] = boot
after (sc ∷ history) = handle_scancode sc (after history)

-- A key is down if its latest event is a press.
abbrev pub held : ℕ → List ℕ → Bool
held key [] = false
held key (sc ∷ history) = if code sc == key then not (released sc) else held key history

-- How often a key was pressed.
abbrev pub presses : ℕ → List ℕ → ℕ
presses key [] = 0
presses key (sc ∷ history) = presses key history + (if sc == key then 1 else 0)

pub record Tracks (history : List ℕ) (s : KeyboardState) : Type 0 where
  pub left_shift : s.left_shift ≡ held 0x2A history
  pub right_shift : s.right_shift ≡ held 0x36 history
  pub ctrl : s.ctrl ≡ held 0x1D history
  pub alt : s.alt ≡ held 0x38 history
  pub caps_lock : s.caps_lock ≡ (presses 0x3A history % 2 == 1)

press_key-state : (k : Keyboard) (ch : ℕ) → (press_key k ch).state ≡ k.state
unfolding press_key
press_key-state k ch = ground arith

-- A modifier follows the presses and releases of its key; CapsLock turns over at each press.
abbrev pub modifiers : KeyboardState → ℕ → KeyboardState
modifiers s sc = record {
  left_shift = if code sc == 0x2A then not (released sc) else s.left_shift;
  right_shift = if code sc == 0x36 then not (released sc) else s.right_shift;
  caps_lock = if code sc == 0x3A && not (released sc) then not s.caps_lock else s.caps_lock;
  ctrl = if code sc == 0x1D then not (released sc) else s.ctrl;
  alt = if code sc == 0x38 then not (released sc) else s.alt;
}

-- One event changes a modifier only if it is the event of that key.
module _ (sc : ℕ) (k : Keyboard) where
  abbrev pub next : KeyboardState
  next = (handle_scancode sc k).state

  next-left_shift :
      next.left_shift ≡ (if code sc == 0x2A then not (released sc) else k.state.left_shift)
  unfolding handle_scancode
  next-left_shift = ground (arith, press_key-state k (char_of k.state (code sc)))

  next-right_shift :
      next.right_shift ≡ (if code sc == 0x36 then not (released sc) else k.state.right_shift)
  unfolding handle_scancode
  next-right_shift = ground (arith, press_key-state k (char_of k.state (code sc)))

  next-ctrl : next.ctrl ≡ (if code sc == 0x1D then not (released sc) else k.state.ctrl)
  unfolding handle_scancode
  next-ctrl = ground (arith, press_key-state k (char_of k.state (code sc)))

  next-alt : next.alt ≡ (if code sc == 0x38 then not (released sc) else k.state.alt)
  unfolding handle_scancode
  next-alt = ground (arith, press_key-state k (char_of k.state (code sc)))

  next-caps_lock :
      next.caps_lock
      ≡ (if code sc == 0x3A && not (released sc) then not k.state.caps_lock else k.state.caps_lock)
  unfolding handle_scancode
  next-caps_lock = ground (arith, press_key-state k (char_of k.state (code sc)))

  -- The five equations as one: what an event makes of the modifiers.
  pub handle_state : next ≡ modifiers k.state sc
  handle_state = λ i. record {
    left_shift = next-left_shift i;
    right_shift = next-right_shift i;
    caps_lock = next-caps_lock i;
    ctrl = next-ctrl i;
    alt = next-alt i;
  }

  step-Tracks :
      (history : List ℕ)
      → sc < 256
      → Tracks history k.state
      → Tracks (sc ∷ history) (handle_scancode sc k).state
  step-Tracks history byte t = record {
    left_shift = ground (arith, next-left_shift, t.left_shift);
    right_shift = ground (arith, next-right_shift, t.right_shift);
    ctrl = ground (arith, next-ctrl, t.ctrl);
    alt = ground (arith, next-alt, t.alt);
    caps_lock = ground (arith, next-caps_lock, t.caps_lock);
  }

abbrev pub Bytes : List ℕ → Type 0
Bytes [] = Unit {0}
Bytes (x ∷ xs) = (x < 256) × Bytes xs

-- After any history of scan codes that are bytes, each of Left Shift, Right Shift, Ctrl and Alt
-- counts as held exactly if the latest event of that key is a press, and CapsLock is on exactly if
-- it was pressed an odd number of times.
pub after-Tracks : (history : List ℕ) → Bytes history → Tracks history (after history).state
unfolding after boot
after-Tracks [] b = record {
  left_shift = refl;
  right_shift = refl;
  ctrl = refl;
  alt = refl;
  caps_lock = refl;
}
after-Tracks (sc ∷ history) b =
    step-Tracks sc (after history) history b.0 (after-Tracks history b.1)

-- The character that an event types: none for a release, a modifier or a key without one.
unfoldable pub typed : KeyboardState → ℕ → ℕ
typed s sc =
    if released sc
      || code sc == 0x2A
      || code sc == 0x36
      || code sc == 0x1D
      || code sc == 0x38
      || code sc == 0x3A
    then 0
    else char_of s (code sc)

module _ (sc : ℕ) (k : Keyboard) where
  input-handle : (handle_scancode sc k).input ≡ (press_key k (typed k.state sc)).input
  unfolding handle_scancode typed press_key
  input-handle = ground arith

  -- Only an event that types a character changes the buffer, and it offers that character.
  pub handle_contents :
      IsBuffer k.input
      → IsBuffer (handle_scancode sc k).input
        × (contents (handle_scancode sc k).input ≡ (
            if typed k.state sc == 0
            then contents k.input
            else offer (contents k.input) (typed k.state sc)))
  handle_contents v = rw input-handle (pressed (typed k.state sc))
    where
      pressed :
          (ch : ℕ)
          → IsBuffer (press_key k ch).input
            × (contents (press_key k ch).input
                ≡ (if ch == 0 then contents k.input else offer (contents k.input) ch))
      pressed ch =
          unfold press_key in
          elim (Bool-cases (ch == 0)) [
            | inl no_char ↦ rw no_char (v, refl)
            | inr char ↦ rw char (push-IsBuffer k.input v ch, push_refines k.input v ch)
          ]
