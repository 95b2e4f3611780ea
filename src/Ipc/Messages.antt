-- ===== src/Ipc/Messages.antt =====
-- What `Message::request` and `Message::response` put into a message.
use nonameos.Prelude.{
  ℕ, ◌≡◌, refl, sym, ap, zero, suc, [], ◌∷◌, ◌∙◌, List, arith, length, take, min, length-take,
  length-replicate, copy_prefix, length-copy_prefix, take-append,
}
use nonameos.Ipc.{Message, max_payload, empty_message, make_request, make_response}

-- `msg` holds the bytes that fit into a payload, and its length field says how many they are.
pub record Carries (msg : Message) (bytes : List ℕ) : Type 0 where
  pub room : length msg.payload ≡ max_payload
  pub counted : msg.payload_len ≡ min (length bytes) max_payload
  pub content : take msg.payload_len msg.payload ≡ take max_payload bytes

take-nil : (k : ℕ) → take {A = ℕ} k [] ≡ []
take-nil zero = refl
take-nil (suc k) = refl

take-min : (n : ℕ) (bytes : List ℕ) → take (min (length bytes) n) bytes ≡ take n bytes
take-min n [] = take-nil (min 0 n) ∙ sym (take-nil n)
take-min zero (x ∷ xs) =
    let none_left : min (suc (length xs)) 0 ≡ 0 = omega arith in ap (λ k. take k (x ∷ xs)) none_left
take-min (suc n) (x ∷ xs) =
    ap (λ k. take k (x ∷ xs)) (shift (length xs) n) ∙ ap (◌∷◌ x) (take-min n xs)
  where
    shift : (l n : ℕ) → min (suc l) (suc n) ≡ suc (min l n)
    shift l n = omega arith

module _ (bytes : List ℕ) where
  len : ℕ
  len = min (length bytes) max_payload

  fits : length (take len bytes) ≡ len
  unfolding len
  fits = omega (arith, length-take len bytes)

  -- A payload of zeros over which the first `len` bytes are copied.
  filled : List ℕ
  filled = copy_prefix (take len bytes) empty_message.payload

  filled-room : length filled ≡ max_payload
  unfolding filled empty_message len
  filled-room =
      length-copy_prefix (take len bytes) empty_message.payload
        (omega (arith, fits, length-replicate {A = ℕ} max_payload 0))
      ∙ length-replicate {A = ℕ} max_payload 0

  filled-content : take len filled ≡ take max_payload bytes
  unfolding filled
  filled-content = ap (λ k. take k filled) (sym fits) ∙ take-append (take len bytes) _ ∙ short
    where
      short : take len bytes ≡ take max_payload bytes
      short = unfold len in take-min max_payload bytes

-- `Message::request` and `Message::response` copy the first 256 bytes at most, say in `payload_len`
-- how many, and keep the payload at its size: no slice is out of range, and the data reads back.
pub request_response_carry :
    (opcode status : ℕ) (bytes : List ℕ)
    → Carries (make_request opcode bytes) bytes × Carries (make_response opcode status bytes) bytes
unfolding make_request make_response filled len
request_response_carry opcode status bytes = (
  record { room = filled-room bytes; counted = refl; content = filled-content bytes },
  record { room = filled-room bytes; counted = refl; content = filled-content bytes },
)
