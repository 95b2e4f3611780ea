-- ===== src/Keyboard/Buffer.antt =====
-- The input buffer is a bounded FIFO that drops what it has no room for.
use nonameos.Prelude.{
  ℕ, ◌+◌, ◌%◌, ◌≤◌, ◌<◌, ◌≡◌, refl, ap, ap₂, ◌∙◌, List, [], ◌∷◌, ◌++◌, Option, none, some, arith,
  false, length, length-set, length-replicate, get_or, inl, inr, ltb, ◌==◌, if◌then◌else◌,
  Bool-cases, eq_of_test, add_usize, sub_usize,
}
use nonameos.Prelude.Collect.{ring, ring-set, ring-step_of_ne_zero, length-ring}
use nonameos.Keyboard.{InputBuffer, input_buf_size, new_buffer, push, pop}

-- The characters that wait, oldest first.
abbrev pub contents : InputBuffer → List ℕ
contents b = ring input_buf_size 0 b.items b.read_pos b.count

pub record IsBuffer (b : InputBuffer) : Type 0 where
  pub slots : length b.items ≡ input_buf_size
  pub read : b.read_pos < input_buf_size
  pub write : b.write_pos ≡ (b.read_pos + b.count) % input_buf_size
  pub room : b.count ≤ input_buf_size

pub length-contents : (b : InputBuffer) → length (contents b) ≡ b.count
length-contents b = length-ring input_buf_size 0 b.items b.read_pos b.count

pub new-IsBuffer : IsBuffer new_buffer
unfolding new_buffer
new-IsBuffer = record {
  slots = length-replicate {A = ℕ} input_buf_size 0;
  read = omega arith;
  write = omega arith;
  room = omega arith;
}

-- The specification: a list of at most 256 characters.
unfoldable pub offer : List ℕ → ℕ → List ℕ
offer cs ch = if ltb (length cs) input_buf_size then cs ++ (ch ∷ []) else cs

unfoldable pub next_char : List ℕ → Option ℕ × List ℕ
next_char [] = (none, [])
next_char (c ∷ cs) = (some c, cs)

module _ (b : InputBuffer) (v : IsBuffer b) where
  pub push-IsBuffer : (ch : ℕ) → IsBuffer (push b ch)
  unfolding push
  push-IsBuffer ch = ground (arith, length-set b.items b.write_pos ch)

  pub push_refines : (ch : ℕ) → contents (push b ch) ≡ offer (contents b) ch
  unfolding push offer
  push_refines ch = elim (Bool-cases (ltb b.count input_buf_size)) [
    | inl room ↦
        rw (room, length-contents b, room)
          (ground (
            arith,
            ring-set input_buf_size 0 b.items b.read_pos b.count ch v.slots (ground arith),
            v.write,
          ))
    | inr full ↦ rw (full, length-contents b, full)
  ]

  pub pop-IsBuffer : IsBuffer (pop b).1
  unfolding pop
  pop-IsBuffer = ground arith

  split_oldest :
      (b.count == 0) ≡ false
      → contents b
        ≡ get_or b.items b.read_pos 0
          ∷ ring input_buf_size 0 b.items
              (add_usize b.read_pos 1 % input_buf_size)
              (sub_usize b.count 1)
  split_oldest more =
      ring-step_of_ne_zero input_buf_size 0 b.items b.read_pos b.count v.read (ground arith)
      ∙ ap₂ (λ r n. get_or b.items b.read_pos 0 ∷ ring input_buf_size 0 b.items r n)
          (omega (arith, v.read)) (ground (arith, v.room))

  pub pop_refines : ((pop b).0, contents (pop b).1) ≡ next_char (contents b)
  unfolding pop next_char
  pop_refines = elim (Bool-cases (b.count == 0)) [
    | inl empty ↦
        rw (empty, ap (ring input_buf_size 0 b.items b.read_pos) (eq_of_test _ _ empty)) refl
    | inr more ↦ rw (more, split_oldest more) refl
  ]
