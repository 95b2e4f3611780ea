-- ===== src/Ipc/Spec.antt =====
-- What the IPC registry promises: a table of channels, each a bounded FIFO of messages.
use nonameos.Prelude.{
  ℕ, Bool, true, false, not, ◌&&◌, List, [], ◌∷◌, ◌++◌, Option, none, some, length, get_elem?, set,
  bytes_eq, ltb, leb, if◌then◌else◌,
}
use nonameos.Prelude.Find.{find_index}
use nonameos.Ipc.{
  Message, max_name_len, queue_size, SendResult, ok, err, invalid_endpoint, queue_full,
}

pub record Channel : Type 0 where
  pub name : List ℕ
  pub owner : ℕ
  pub active : Bool
  pub items : List Message

abbrev pub Registry : Type 0
Registry = List Channel

unfoldable pub push : List Message → Message → List Message × Bool
push items msg =
    if leb queue_size (length items) then (items, false) else (items ++ (msg ∷ []), true)

unfoldable pub pop : List Message → List Message × Option Message
pop [] = ([], none)
pop (msg ∷ items) = (items, some msg)

abbrev pub on_active {ℓ} : {R : Type ℓ} → Registry → ℕ → R → (Channel → R) → R
on_active r id refused serve = elim (get_elem? r id) [
  | none ↦ refused
  | some c ↦ if c.active then serve c else refused
]

unfoldable pub send : ℕ → Message → Registry → SendResult × Registry
send id msg r =
    on_active r id (err invalid_endpoint, r)
      λ c.
        let (items, sent) = push c.items msg in
        (if sent then ok else err queue_full, set r id (record c { items = items }))

unfoldable pub receive : ℕ → Registry → Option Message × Registry
receive id r =
    on_active r id (none, r)
      λ c. let (items, msg) = pop c.items in (msg, set r id (record c { items = items }))

unfoldable pub find : List ℕ → Registry → Option ℕ
find name r = find_index (λ (c : Channel). c.active && bytes_eq c.name name) r

-- A new owner takes over a free slot, with the messages that are left in it.
unfoldable pub claim_slot : List ℕ → ℕ → Option ℕ → Registry → Option ℕ × Registry
claim_slot name owner none r = (none, r)
claim_slot name owner (some i) r = elim (get_elem? r i) [
  | none ↦ (none, r)
  | some c ↦ (some i, set r i (record c { name = name; owner = owner; active = true }))
]

unfoldable pub register : List ℕ → ℕ → Registry → Option ℕ × Registry
unfolding claim_slot
register name owner r =
    if ltb max_name_len (length name)
    then (none, r)
    else claim_slot name owner (find_index (λ (c : Channel). not c.active) r) r

unfoldable pub unregister : ℕ → Registry → Registry
unregister id r = elim (get_elem? r id) [
  | none ↦ r
  | some c ↦ set r id (record c { active = false })
]
