-- ===== src/Vfs/Path.antt =====
-- Path lookup against the names between the slashes.
use nonameos.Prelude.{
  ℕ, zero, suc, ◌+◌, ◌≤◌, ◌≡◌, refl, sym, ap, ap₂, ◌∙◌, true, false, List, [], ◌∷◌, Option, none,
  some, ◌>>=◌, arith, length, drop, ◌==◌, if◌then◌else◌, inl, inr, Bool-cases,
}
use nonameos.Vfs.{Vfs, slash, component, find_child_dentry, lookup_from, path_lookup}

-- The text before the first slash, and the texts between slashes after it.
unfoldable pub split : List ℕ → List ℕ × List (List ℕ)
split [] = ([], [])
split (c ∷ cs) =
    let (word, words) = split cs in if c == slash then ([], word ∷ words) else (c ∷ word, words)

unfoldable pub non_empty : List (List ℕ) → List (List ℕ)
non_empty [] = []
non_empty ([] ∷ words) = non_empty words
non_empty ((c ∷ cs) ∷ words) = (c ∷ cs) ∷ non_empty words

-- The names of a path: what stands between its slashes, where something does.
unfoldable pub names : List ℕ → List (List ℕ)
names path = non_empty ((split path).0 ∷ (split path).1)

-- Going down from a directory, name by name.
unfoldable pub resolve : List (List ℕ) → ℕ → Vfs → Option ℕ
resolve [] current v = some current
resolve (name ∷ rest) current v = do child ← find_child_dentry current name v; resolve rest child v

length-drop_le : (n : ℕ) (cs : List ℕ) → length (drop n cs) ≤ length cs
length-drop_le zero cs = omega arith
length-drop_le (suc n) [] = omega arith
length-drop_le (suc n) (c ∷ cs) = omega (arith, length-drop_le n cs)

>>=-congr : {f g : ℕ → Option ℕ} (o : Option ℕ) → ((a : ℕ) → f a ≡ g a) → (o >>= f) ≡ (o >>= g)
>>=-congr none h = refl
>>=-congr (some a) h = h a

split-component : (cs : List ℕ) → (split cs).0 ≡ component cs
unfolding split component
split-component [] = refl
split-component (c ∷ cs) = ground (arith, split-component cs)

-- The names behind the first component are those of the path behind it.
names-behind :
    (cs : List ℕ) → non_empty (split cs).1 ≡ names (drop (suc (length (component cs))) cs)
unfolding split component names non_empty
names-behind [] = refl
names-behind (c ∷ cs) = elim (Bool-cases (c == slash)) [
  | inl cut ↦ rw cut refl
  | inr more ↦ rw more (names-behind cs)
]

names-slash : (c : ℕ) (cs : List ℕ) → (c == slash) ≡ true → names (c ∷ cs) ≡ names cs
unfolding split names non_empty
names-slash c cs cut = rw cut refl

-- What the loop goes on with behind a component.
behind : List ℕ → List ℕ
behind cs = drop (suc (length (component cs))) cs

names-word :
    (c : ℕ) (cs : List ℕ)
    → (c == slash) ≡ false
    → names (c ∷ cs) ≡ (c ∷ component cs) ∷ names (behind cs)
unfolding split names non_empty behind
names-word c cs more = rw more (ap₂ (λ w ws. (c ∷ w) ∷ ws) (split-component cs) (names-behind cs))

length-behind : (cs : List ℕ) → length (behind cs) ≤ length cs
unfolding behind
length-behind cs = length-drop_le (suc (length (component cs))) cs

component-slash : (c : ℕ) (cs : List ℕ) → (c == slash) ≡ true → component (c ∷ cs) ≡ []
unfolding component
component-slash c cs cut = rw cut refl

component-word :
    (c : ℕ) (cs : List ℕ) → (c == slash) ≡ false → component (c ∷ cs) ≡ c ∷ component cs
unfolding component
component-word c cs more = rw more refl

lookup-slash :
    (fuel c : ℕ) (cs : List ℕ) (current : ℕ) (v : Vfs)
    → (c == slash) ≡ true
    → lookup_from (suc fuel) (c ∷ cs) current v ≡ lookup_from fuel cs current v
unfolding lookup_from
lookup-slash fuel c cs current v cut = rw (lookup_from, component-slash c cs cut) refl

lookup-word :
    (fuel c : ℕ) (cs : List ℕ) (current : ℕ) (v : Vfs)
    → (c == slash) ≡ false
    → lookup_from (suc fuel) (c ∷ cs) current v ≡ (do
      child ← find_child_dentry current (c ∷ component cs) v
      lookup_from fuel (behind cs) child v)
unfolding lookup_from
lookup-word fuel c cs current v more =
    rw (lookup_from, component-word c cs more)
      (settle (find_child_dentry current (c ∷ component cs) v))
  where
    dropped : length (c ∷ component cs) + 1 ≡ suc (suc (length (component cs)))
    dropped = omega arith

    settle :
        (o : Option ℕ)
        → (elim o [
          | none ↦ none
          | some child ↦ lookup_from fuel (drop (length (c ∷ component cs) + 1) (c ∷ cs)) child v
        ])
          ≡ (o >>= λ child. lookup_from fuel (behind cs) child v)
    settle none = refl
    settle (some child) =
        unfold behind in ap (λ n. lookup_from fuel (drop n (c ∷ cs)) child v) dropped

lookup_from-resolve :
    (fuel : ℕ) (rest : List ℕ) (current : ℕ) (v : Vfs)
    → length rest ≤ fuel
    → lookup_from fuel rest current v ≡ resolve (names rest) current v
unfolding lookup_from resolve names split non_empty
lookup_from-resolve zero [] current v h = refl
lookup_from-resolve zero (c ∷ cs) current v h = absurd (omega arith)
lookup_from-resolve (suc fuel) [] current v h = refl
lookup_from-resolve (suc fuel) (c ∷ cs) current v h = elim (Bool-cases (c == slash)) [
  | inl cut ↦
      lookup-slash fuel c cs current v cut
      ∙ lookup_from-resolve fuel cs current v (omega (arith, h))
      ∙ ap (λ ns. resolve ns current v) (sym (names-slash c cs cut))
  | inr more ↦
      lookup-word fuel c cs current v more
      ∙ >>=-congr (find_child_dentry current (c ∷ component cs) v) (λ child.
        lookup_from-resolve fuel (behind cs) child v (omega (arith, h, length-behind cs)))
      ∙ ap (λ ns. resolve ns current v) (sym (names-word c cs more))
]

-- A path that is not empty leads where its names lead from the root, one after the other; slashes
-- at the front or at the end, or several in a row, make no difference.
pub path_lookup-resolve :
    (c : ℕ) (cs : List ℕ) (v : Vfs) → path_lookup (c ∷ cs) v ≡ resolve (names (c ∷ cs)) 0 v
unfolding path_lookup
path_lookup-resolve c cs v = elim (Bool-cases (c == slash)) [
  | inl cut ↦ rw cut (
      lookup_from-resolve (length cs) cs 0 v (omega arith)
      ∙ ap (λ ns. resolve ns 0 v) (sym (names-slash c cs cut)))
  | inr more ↦ rw more (lookup_from-resolve (length (c ∷ cs)) (c ∷ cs) 0 v (omega arith))
]
