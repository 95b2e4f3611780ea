-- ===== src/Scheduler/Edits.antt =====
-- Edits of one entry of the thread table, and which threads are Running after them.
use mathlib.Core.Option
use mathlib.Core.Bool.{false≢true}
use nonameos.Prelude.{
  ℕ, zero, suc, ◌≤◌, ◌<◌, ◌≡◌, refl, sym, ap, ◌∙◌, subst, Bool, true, false, List, [], ◌∷◌, Option,
  none, some, arith, length, set, length-set, get_or-set, inl, inr, ltb, ◌==◌, if◌then◌else◌,
  Bool-cases, eq_of_test, ◌⊎◌,
}
use nonameos.Task.{is_running, Thread}
use nonameos.Scheduler.{max_threads, thread, edit, preempt}

get_or_past : (ts : List (Option Thread)) (i : ℕ) → length ts ≤ i → thread ts i ≡ none
get_or_past [] i h = refl
get_or_past (t ∷ ts) zero h = absurd (omega arith)
get_or_past (t ∷ ts) (suc i) h = get_or_past ts i (omega arith)

set_past : (ts : List (Option Thread)) (i : ℕ) (o : Option Thread) → length ts ≤ i → set ts i o ≡ ts
set_past [] i o h = refl
set_past (t ∷ ts) zero o h = absurd (omega arith)
set_past (t ∷ ts) (suc i) o h = ap (◌∷◌ t) (set_past ts i o (omega arith))

-- An edit is seen at its own index only.
pub thread-edit :
    (f : Thread → Thread) (i : ℕ) (ts : List (Option Thread)) (j : ℕ)
    → thread (edit f i ts) j ≡ (if i == j then Option.map f (thread ts i) else thread ts j)
unfolding edit
thread-edit f i ts j = elim (Bool-cases (ltb i (length ts))) [
  | inl within ↦ get_or-set ts i j (Option.map f (thread ts i)) none (ground arith)
  | inr past ↦
      rw (set_past ts i (Option.map f (thread ts i)) (ground arith))
        (past_case (get_or_past ts i (ground arith)))
]
  where
    past_case :
        thread ts i ≡ none
        → thread ts j ≡ (if i == j then Option.map f (thread ts i) else thread ts j)
    past_case e = elim (Bool-cases (i == j)) [
      | inl same ↦ rw (same, e) (sym (ap (thread ts) (eq_of_test i j same)) ∙ e)
      | inr other ↦ rw other
    ]

pub length-edit :
    (f : Thread → Thread) (i : ℕ) (ts : List (Option Thread)) → length (edit f i ts) ≡ length ts
unfolding edit
length-edit f i ts = length-set ts i (Option.map f (thread ts i))

abbrev pub running : Option Thread → Bool
running none = false
running (some t) = is_running t.state

abbrev pub occupied : Option Thread → Bool
occupied none = false
occupied (some t) = true

abbrev pub OnlyRunning : ℕ → List (Option Thread) → Type 0
OnlyRunning cur ts = (i : ℕ) → running (thread ts i) ≡ true → i ≡ cur

abbrev pub NoneRunning : List (Option Thread) → Type 0
NoneRunning ts = (i : ℕ) → running (thread ts i) ≡ false

-- What the loops keep when no thread is at work, and when `cur` is.
pub record IsCurrent (cur : ℕ) (ts : List (Option Thread)) : Type 0 where
  pub size : length ts ≡ max_threads
  pub within : cur < max_threads
  pub there : occupied (thread ts cur) ≡ true
  pub only : OnlyRunning cur ts

-- An edit of the current thread, whatever it does, and of another thread that is not set running.
pub edit_self :
    (f : Thread → Thread) (cur : ℕ) (ts : List (Option Thread))
    → IsCurrent cur ts
    → IsCurrent cur (edit f cur ts)
edit_self f cur ts v = record {
  size = length-edit f cur ts ∙ v.size;
  within = v.within;
  there = ground (arith, v.there, thread-edit f cur ts cur);
  only = λ i r. elim (Bool-cases (cur == i)) [
    | inl same ↦ sym (eq_of_test cur i same)
    | inr other ↦ v.only i (ground (arith, thread-edit f cur ts i))
  ];
}

occupied-map : (f : Thread → Thread) (o : Option Thread) → occupied (Option.map f o) ≡ occupied o
occupied-map f none = refl
occupied-map f (some t) = refl

running-map :
    (f : Thread → Thread) (o : Option Thread)
    → ((t : Thread) → is_running (f t).state ≡ true → is_running t.state ≡ true)
    → running (Option.map f o) ≡ true
    → running o ≡ true
running-map f none keep r = r
running-map f (some t) keep r = keep t r

pub edit_other :
    (f : Thread → Thread) (i cur : ℕ) (ts : List (Option Thread))
    → ((t : Thread) → is_running (f t).state ≡ true → is_running t.state ≡ true)
    → IsCurrent cur ts
    → IsCurrent cur (edit f i ts)
edit_other f i cur ts keep v = record {
  size = length-edit f i ts ∙ v.size;
  within = v.within;
  there = ap occupied (thread-edit f i ts cur) ∙ still (Bool-cases (i == cur));
  only =
      λ j r. v.only j (was j (sym (ap running (thread-edit f i ts j)) ∙ r) (Bool-cases (i == j)));
}
  where
    still :
        ((i == cur) ≡ true) ⊎ ((i == cur) ≡ false)
        → occupied (if i == cur then Option.map f (thread ts i) else thread ts cur) ≡ true
    still (inl same) = rw same (
        occupied-map f (thread ts i)
        ∙ ap (λ k. occupied (thread ts k)) (eq_of_test i cur same)
        ∙ v.there)
    still (inr other) = rw other v.there

    was :
        (j : ℕ)
        → running (if i == j then Option.map f (thread ts i) else thread ts j) ≡ true
        → ((i == j) ≡ true) ⊎ ((i == j) ≡ false)
        → running (thread ts j) ≡ true
    was j r (inl same) =
        subst (λ k. running (thread ts k) ≡ true) (eq_of_test i j same)
          (running-map f (thread ts i) keep (
            sym (ap (λ b. running (if b then Option.map f (thread ts i) else thread ts j)) same)
            ∙ r))
    was j r (inr other) =
        sym (ap (λ b. running (if b then Option.map f (thread ts i) else thread ts j)) other) ∙ r

-- After `preempt` of the current thread no thread is Running.
preempt-not_running : (o : Option Thread) → running (Option.map preempt o) ≡ false
unfolding preempt is_running
preempt-not_running none = refl
preempt-not_running (some t) = ground arith

pub preempted :
    (cur : ℕ) (ts : List (Option Thread)) → IsCurrent cur ts → NoneRunning (edit preempt cur ts)
preempted cur ts v i = ap running (thread-edit preempt cur ts i) ∙ cases (Bool-cases (cur == i))
  where
    idle_one : (b : Bool) → running (thread ts i) ≡ b → (cur == i) ≡ false → b ≡ false
    idle_one false e other = refl
    idle_one true e other = absurd (ne (v.only i e))
      where
        ne : ¬ (i ≡ cur)
        ne same = ground (arith, other, same)

    cases :
        ((cur == i) ≡ true) ⊎ ((cur == i) ≡ false)
        → running (if cur == i then Option.map preempt (thread ts cur) else thread ts i) ≡ false
    cases (inl same) = rw same (preempt-not_running (thread ts cur))
    cases (inr other) = rw other (idle_one (running (thread ts i)) refl other)

-- Where nothing is Running, an edit of one thread makes it the only one.
pub edit_none :
    (f : Thread → Thread) (i : ℕ) (ts : List (Option Thread))
    → NoneRunning ts
    → OnlyRunning i (edit f i ts)
edit_none f i ts quiet j r = elim (Bool-cases (i == j)) [
  | inl same ↦ sym (eq_of_test i j same)
  | inr other ↦ absurd (false≢true (sym (quiet j) ∙ sym (as_before other) ∙ r))
]
  where
    as_before : (i == j) ≡ false → running (thread (edit f i ts) j) ≡ running (thread ts j)
    as_before other =
        ap running (thread-edit f i ts j)
        ∙ ap (λ b. running (if b then Option.map f (thread ts i) else thread ts j)) other

pub occupied-edit :
    (f : Thread → Thread) (i j : ℕ) (ts : List (Option Thread))
    → occupied (thread (edit f i ts) j) ≡ occupied (thread ts j)
occupied-edit f i j ts = ap occupied (thread-edit f i ts j) ∙ cases (Bool-cases (i == j))
  where
    cases :
        ((i == j) ≡ true) ⊎ ((i == j) ≡ false)
        → occupied (if i == j then Option.map f (thread ts i) else thread ts j)
          ≡ occupied (thread ts j)
    cases (inl same) =
        rw same
          (occupied-map f (thread ts i) ∙ ap (λ k. occupied (thread ts k)) (eq_of_test i j same))
    cases (inr other) = rw other
