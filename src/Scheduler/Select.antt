-- ===== src/Scheduler/Select.antt =====
-- Which thread the scan of `schedule` picks.
use nonameos.Prelude.{
  ℕ, zero, suc, ◌+◌, ◌-◌, ◌%◌, ◌≤◌, ◌<◌, ◌≡◌, refl, ap, ◌∙◌, sym, subst, Bool, true, false, List,
  Option, none, some, arith, ◌⊎◌, inl, inr,
}
use native.Mathlib.Nat.{le_trans}
use nonameos.Task.{is_ready, Priority, rank, Thread}
use nonameos.Scheduler.{max_threads, thread, Best, consider, scan, select}

abbrev pub ready : Option Thread → Bool
ready none = false
ready (some t) = is_ready t.state

abbrev pub rank_of : Option Thread → ℕ
rank_of none = 0
rank_of (some t) = rank t.priority

abbrev start : Best
start = record { priority = Priority.idle; next = none }

module _ (ts : List (Option Thread)) (cur : ℕ) where
  -- The index that round `k` looks at.
  abbrev at_round : ℕ → ℕ
  at_round k = (cur + 1 + k) % max_threads

  scan-suc :
      (n i : ℕ) (b : Best)
      → scan (suc n) i ts cur b
        ≡ consider (at_round (i + n)) (thread ts (at_round (i + n))) (scan n i ts cur b)
  unfolding scan
  scan-suc zero i b = ap (λ k. consider (at_round k) (thread ts (at_round k)) b) (omega arith)
  scan-suc (suc n) i b =
      scan-suc n (i + 1) (consider (at_round i) (thread ts (at_round i)) b)
      ∙ ap
          (λ k.
            consider (at_round k) (thread ts (at_round k))
              (scan n (i + 1) ts cur (consider (at_round i) (thread ts (at_round i)) b)))
          (omega arith)

  -- What is known after `m` rounds.
  record Scanned (m : ℕ) (b : Best) : Type 0 where
    low : b.next ≡ none → rank b.priority ≡ 0
    unless : b.next ≡ none → (k : ℕ) → k < m → ready (thread ts (at_round k)) ≡ false
    chosen :
        (x : ℕ)
        → b.next ≡ some x
        → (ready (thread ts x) ≡ true)
          × (rank_of (thread ts x) ≡ rank b.priority)
          × (x < max_threads)
    best :
        (k : ℕ)
        → k < m
        → ready (thread ts (at_round k)) ≡ true
        → rank_of (thread ts (at_round k)) ≤ rank b.priority

  last_or_before : (k m : ℕ) → k < suc m → (k ≡ m) ⊎ (k < m)
  last_or_before k m lt = ground arith

  -- One round.
  module _ (m : ℕ) (b : Best) (o : Option Thread) (e : thread ts (at_round m) ≡ o)
      (s : Scanned m b) where
    at_last : (k : ℕ) → k ≡ m → thread ts (at_round k) ≡ o
    at_last k last = ap (λ j. thread ts (at_round j)) last ∙ e

    abbrev after : Best
    after = consider (at_round m) o b

    after-unless : after.next ≡ none → (b.next ≡ none) × (ready o ≡ false)
    unfolding consider
    after-unless h = ground (arith, s.low)

    after-chosen :
        (x : ℕ)
        → after.next ≡ some x
        → (ready (thread ts x) ≡ true)
          × (rank_of (thread ts x) ≡ rank after.priority)
          × (x < max_threads)
    unfolding consider
    after-chosen x h = ground (arith, s.chosen x, e)

    after-best :
        (rank b.priority ≤ rank after.priority) × (ready o ≡ true → rank_of o ≤ rank after.priority)
    unfolding consider
    after-best = (ground arith, ground arith)

    after-low : after.next ≡ none → rank after.priority ≡ 0
    unfolding consider
    after-low h = ground (arith, s.low)

    round : Scanned (suc m) after
    round = record {
      low = after-low;
      unless = λ h k lt. elim (last_or_before k m lt) [
        | inl last ↦ ap ready (at_last k last) ∙ (after-unless h).1
        | inr before ↦ s.unless (after-unless h).0 k before
      ];
      chosen = after-chosen;
      best = λ k lt r. elim (last_or_before k m lt) [
        | inl last ↦
            subst (λ t. rank_of t ≤ rank after.priority) (sym (at_last k last))
              (after-best.1 (sym (ap ready (at_last k last)) ∙ r))
        | inr before ↦ le_trans (s.best k before r) after-best.0
      ];
    }

  Scanned-scan : (m : ℕ) → Scanned m (scan m 0 ts cur start)
  unfolding scan rank
  Scanned-scan zero = record {
    low = λ h. refl;
    unless = λ h k lt. elim lt [ ];
    chosen = λ x h. absurd (cc);
    best = λ k lt. elim lt [ ];
  }
  Scanned-scan (suc m) = subst (Scanned (suc m)) (sym (scan-suc m 0 start)) (
      subst
        (λ k.
          Scanned (suc m) (consider (at_round k) (thread ts (at_round k)) (scan m 0 ts cur start)))
        (zero_add m) (round m (scan m 0 ts cur start) _ refl (Scanned-scan m)))
    where
      zero_add : (m : ℕ) → m ≡ 0 + m
      zero_add m = omega arith

-- `next` is the outcome of a fair choice: no thread is ready, or a ready one of the highest
-- priority is chosen.
pub data Selects (ts : List (Option Thread)) : Option ℕ → Type 0 where
  nobody : ((j : ℕ) → j < max_threads → ready (thread ts j) ≡ false) → Selects ts none
  somebody :
      (x : ℕ)
      → x < max_threads
      → ready (thread ts x) ≡ true
      → ((j : ℕ)
          → j < max_threads
          → ready (thread ts j) ≡ true
          → rank_of (thread ts j) ≤ rank_of (thread ts x))
      → Selects ts (some x)

module _ (ts : List (Option Thread)) (cur : ℕ) (within : cur < max_threads) where
  round_of : ℕ → ℕ
  round_of j = (j + 63 - cur) % max_threads

  at_round_of : (j : ℕ) → j < max_threads → at_round ts cur (round_of j) ≡ j
  unfolding round_of
  at_round_of j lt = omega arith

  round_of-lt : (j : ℕ) → round_of j < max_threads
  unfolding round_of
  round_of-lt j = omega arith

  select-Scanned :
      (b : Best) (o : Option ℕ) → b.next ≡ o → Scanned ts cur max_threads b → Selects ts o
  select-Scanned b none e s = nobody λ j lt.
      sym (ap (λ i. ready (thread ts i)) (at_round_of j lt))
      ∙ s.unless e (round_of j) (round_of-lt j)
  select-Scanned b (some x) e s = somebody x (s.chosen x e).2 (s.chosen x e).0 λ j lt r.
      subst (λ n. rank_of (thread ts j) ≤ n) (sym (s.chosen x e).1)
        (subst (λ i. rank_of (thread ts i) ≤ rank b.priority) (at_round_of j lt)
          (s.best (round_of j) (round_of-lt j)
            (ap (λ i. ready (thread ts i)) (at_round_of j lt) ∙ r)))

  pub select-Selects : Selects ts (select ts cur)
  unfolding select
  select-Selects =
      select-Scanned (scan max_threads 0 ts cur start) _ refl (Scanned-scan ts cur max_threads)

  -- The current thread is looked at last, and wins every tie.
  pub select_self :
      (t : Thread)
      → thread ts cur ≡ some t
      → is_ready t.state ≡ true
      → ((j : ℕ)
          → j < max_threads
          → ready (thread ts j) ≡ true
          → rank_of (thread ts j) ≤ rank t.priority)
      → select ts cur ≡ some cur
  unfolding select consider
  select_self t e r top =
      ap (λ (b : Best). b.next) (scan-suc ts cur 63 0 start)
      ∙ last_wins (scan 63 0 ts cur start) (Scanned-scan ts cur 63)
    where
      self : at_round ts cur (0 + 63) ≡ cur
      self = omega arith

      beaten :
          (b : Best) (o : Option ℕ)
          → b.next ≡ o
          → Scanned ts cur 63 b
          → rank b.priority ≤ rank t.priority
      beaten b none h s = omega (arith, s.low h)
      beaten b (some x) h s =
          omega (arith, (s.chosen x h).1, top x (s.chosen x h).2 (s.chosen x h).0)

      last_wins :
          (b : Best)
          → Scanned ts cur 63 b
          → (consider (at_round ts cur (0 + 63)) (thread ts (at_round ts cur (0 + 63))) b).next
            ≡ some cur
      last_wins b s = rw (self, e) (ground (arith, r, beaten b b.next refl s))
