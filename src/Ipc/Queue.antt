-- ===== src/Ipc/Queue.antt =====
-- The circular queue of one endpoint is a bounded FIFO.
use nonameos.Prelude.{
  ◌+◌, ◌%◌, ◌≤◌, ◌<◌, ◌≡◌, refl, ap, ap₂, eq_of_test, ◌∙◌, add_usize, sub_usize, false, List, ◌∷◌,
  arith, length, length-set, get_or, inl, inr, Bool-cases, ◌==◌, leb,
}
use nonameos.Prelude.Collect.{ring, ring-set, ring-step_of_ne_zero, length-ring}
use nonameos.Ipc.Spec.{push, pop}
use nonameos.Ipc.{Message, Endpoint, empty_message, queue_size, enqueue, dequeue}

-- The messages in the queue, oldest first.
abbrev pub contents : Endpoint → List Message
contents e = ring queue_size empty_message e.queue e.queue_read e.queue_count

pub record IsQueue (e : Endpoint) : Type 0 where
  pub slots : length e.queue ≡ queue_size
  pub read : e.queue_read < queue_size
  pub write : e.queue_write ≡ (e.queue_read + e.queue_count) % queue_size
  pub count : e.queue_count ≤ queue_size

pub length-contents : (e : Endpoint) → length (contents e) ≡ e.queue_count
length-contents e = length-ring queue_size empty_message e.queue e.queue_read e.queue_count

module _ (e : Endpoint) (v : IsQueue e) where
  -- `enqueue` refuses at a full queue, and otherwise puts the message behind the others.
  pub enqueue_refines :
      (msg : Message) → (contents (enqueue e msg).0, (enqueue e msg).1) ≡ push (contents e) msg
  unfolding enqueue push
  enqueue_refines msg = elim (Bool-cases (leb queue_size e.queue_count)) [
    | inl full ↦ rw (full, length-contents e, full)
    | inr room ↦
        rw (room, length-contents e, room)
          (ground (
            arith,
            ring-set queue_size empty_message e.queue e.queue_read e.queue_count msg v.slots
                (ground arith),
            v.write,
          ))
  ]

  pub enqueue-IsQueue : (msg : Message) → IsQueue (enqueue e msg).0
  unfolding enqueue
  enqueue-IsQueue msg = ground (arith, length-set e.queue e.queue_write msg)

  split_oldest :
      (e.queue_count == 0) ≡ false
      → contents e
        ≡ get_or e.queue e.queue_read empty_message
          ∷ ring queue_size empty_message e.queue
              (add_usize e.queue_read 1 % queue_size)
              (sub_usize e.queue_count 1)
  split_oldest more =
      ring-step_of_ne_zero queue_size empty_message e.queue e.queue_read e.queue_count v.read
        (ground arith)
      ∙ ap₂
          (λ r n.
            get_or e.queue e.queue_read empty_message ∷ ring queue_size empty_message e.queue r n)
          (omega (arith, v.read)) (ground (arith, v.count))

  -- `dequeue` takes the oldest message out.
  pub dequeue_refines : (contents (dequeue e).0, (dequeue e).1) ≡ pop (contents e)
  unfolding dequeue pop
  dequeue_refines = elim (Bool-cases (e.queue_count == 0)) [
    | inl empty ↦
        rw (empty, ap (ring queue_size empty_message e.queue e.queue_read) (eq_of_test _ _ empty))
          refl
    | inr more ↦ rw (more, split_oldest more) refl
  ]

  pub dequeue-IsQueue : IsQueue (dequeue e).0
  unfolding dequeue
  dequeue-IsQueue = ground arith
