-- ===== src/Ipc/Run.antt =====
-- Histories of IPC calls, against the registry of `Ipc.Spec`.
use nonameos.Prelude.{
  ℕ, ◌≤◌, ◌≡◌, refl, ap, ap₂, ◌∙◌, not, List, [], ◌∷◌, Option, some, arith, true, length, get_elem?,
  set, get_elem?-set, lt-length_of_get_elem?,
}
use nonameos.Prelude.Find.{find_index}
use nonameos.Ipc.Spec
use nonameos.Ipc.Spec.{Channel, Registry}
use nonameos.Ipc.Valid.{
  IsTable, boot-IsTable, send-IsTable, receive-IsTable, register-IsTable, unregister-IsTable,
}
use nonameos.Ipc.Refine.{
  views, send_refines, receive_refines, register_refines, unregister_refines, find_refines,
}
use nonameos.Ipc.{
  Message, Endpoints, boot, SendResult, max_name_len, register_endpoint, find_endpoint, send,
  receive, unregister_endpoint,
}

pub data Call : Type 0 where
  registers : List ℕ → ℕ → Call
  finds : List ℕ → Call
  sends : ℕ → Message → Call
  receives unregisters : ℕ → Call

pub data Reply : Type 0 where
  index : Option ℕ → Reply
  sent : SendResult → Reply
  received : Option Message → Reply
  done : Reply

unfoldable pub step : Call → Endpoints → Reply × Endpoints
step (registers name owner) es = let (i, es') = register_endpoint name owner es in (index i, es')
step (finds name) es = (index (find_endpoint name es), es)
step (sends id msg) es = let (r, es') = send id msg es in (sent r, es')
step (receives id) es = let (m, es') = receive id es in (received m, es')
step (unregisters id) es = (done, unregister_endpoint id es)

unfoldable pub spec_step : Call → Registry → Reply × Registry
spec_step (registers name owner) r = let (i, r') = Spec.register name owner r in (index i, r')
spec_step (finds name) r = (index (Spec.find name r), r)
spec_step (sends id msg) r = let (s, r') = Spec.send id msg r in (sent s, r')
spec_step (receives id) r = let (m, r') = Spec.receive id r in (received m, r')
spec_step (unregisters id) r = (done, Spec.unregister id r)

unfoldable pub run : List Call → Endpoints → List Reply
run [] es = []
run (c ∷ cs) es = let (r, es') = step c es in r ∷ run cs es'

unfoldable pub spec_run : List Call → Registry → List Reply
spec_run [] r = []
spec_run (c ∷ cs) r = let (x, r') = spec_step c r in x ∷ spec_run cs r'

step-IsTable : (c : Call) (es : Endpoints) → IsTable es → IsTable (step c es).1
unfolding step
step-IsTable (registers name owner) es t = register-IsTable name owner es t
step-IsTable (finds name) es t = t
step-IsTable (sends id msg) es t = send-IsTable id msg es t
step-IsTable (receives id) es t = receive-IsTable id es t
step-IsTable (unregisters id) es t = unregister-IsTable id es t

step_refines :
    (c : Call) (es : Endpoints)
    → IsTable es
    → ((step c es).0, views (step c es).1) ≡ spec_step c (views es)
unfolding step spec_step
step_refines (registers name owner) es t =
    ap (λ (p : Option ℕ × Registry). (index p.0, p.1)) (register_refines es t name owner)
step_refines (finds name) es t = ap (λ i. (index i, views es)) (find_refines es t name)
step_refines (sends id msg) es t =
    ap (λ (p : SendResult × Registry). (sent p.0, p.1)) (send_refines es t id msg)
step_refines (receives id) es t =
    ap (λ (p : Option Message × Registry). (received p.0, p.1)) (receive_refines es t id)
step_refines (unregisters id) es t = ap (λ r. (done, r)) (unregister_refines es t id)

run_refines_from :
    (cs : List Call) (es : Endpoints) → IsTable es → run cs es ≡ spec_run cs (views es)
unfolding run spec_run
run_refines_from [] es t = refl
run_refines_from (c ∷ cs) es t =
    ap₂ ◌∷◌ (ap (λ (p : Reply × Registry). p.0) (step_refines c es t)) (
      run_refines_from cs (step c es).1 (step-IsTable c es t)
      ∙ ap (λ (p : Reply × Registry). spec_run cs p.1) (step_refines c es t))

-- From boot on, no sequence of register, find, send, receive and unregister calls tells the
-- endpoint table from the registry of channels, each a FIFO of at most 16 messages: every reply is
-- the same.
pub run_refines : (cs : List Call) → run cs boot ≡ spec_run cs (views boot)
run_refines cs = run_refines_from cs boot boot-IsTable

unfoldable pub after : List Call → Endpoints → Endpoints
after [] es = es
after (c ∷ cs) es = after cs (step c es).1

after-IsTable_from : (cs : List Call) (es : Endpoints) → IsTable es → IsTable (after cs es)
unfolding after
after-IsTable_from [] es t = t
after-IsTable_from (c ∷ cs) es t = after-IsTable_from cs (step c es).1 (step-IsTable c es t)

-- After any calls from boot on, the table has its 64 endpoints, and every ring keeps its 16 slots,
-- its two indices inside them and its count consistent with them.
pub after-IsTable : (cs : List Call) → IsTable (after cs boot)
after-IsTable cs = after-IsTable_from cs boot boot-IsTable

module _ (r : Registry) (name : List ℕ) (owner i : ℕ) (c : Channel) where
  reclaimed : Channel
  reclaimed = record c { name = name; owner = owner; active = true }

  spec_register :
      length name ≤ max_name_len
      → find_index (λ (c : Channel). not c.active) r ≡ some i
      → get_elem? r i ≡ some c
      → Spec.register name owner r ≡ (some i, set r i reclaimed)
  unfolding Spec.register reclaimed
  spec_register fits free at = ground arith

  spec_receive :
      (msg : Message) (rest : List Message)
      → get_elem? r i ≡ some c
      → c.items ≡ msg ∷ rest
      → (Spec.receive i (set r i reclaimed)).0 ≡ some msg
  unfolding Spec.receive Spec.pop reclaimed
  spec_receive msg rest at left =
      ground (arith, get_elem?-set r i i reclaimed, lt-length_of_get_elem? r i c at)

-- A slot that is free again keeps its queue: if messages are left in the first free slot of a valid
-- table, whoever registers next with a name that fits gets that slot, and the first `receive` there
-- returns the oldest of them.
pub stale_message :
    (es : Endpoints) (name : List ℕ) (owner i : ℕ) (c : Channel) (msg : Message)
    (rest : List Message)
    → IsTable es
    → length name ≤ max_name_len
    → find_index (λ (c : Channel). not c.active) (views es) ≡ some i
    → get_elem? (views es) i ≡ some c
    → c.items ≡ msg ∷ rest
    → ((register_endpoint name owner es).0 ≡ some i)
      × ((receive i (register_endpoint name owner es).1).0 ≡ some msg)
stale_message es name owner i c msg rest t fits free at left = (
  ap (λ (p : Option ℕ × Registry). p.0) registered,
  ap (λ (p : Option Message × Registry). p.0)
        (receive_refines (register_endpoint name owner es).1 (register-IsTable name owner es t) i)
      ∙ ap (λ (p : Option ℕ × Registry). (Spec.receive i p.1).0) registered
      ∙ spec_receive (views es) name owner i c msg rest at left,
)
  where
    registered :
        ◌≡◌ {A = Option ℕ × Registry}
          ((register_endpoint name owner es).0, views (register_endpoint name owner es).1)
          (some i, set (views es) i (reclaimed (views es) name owner i c))
    registered =
        register_refines es t name owner ∙ spec_register (views es) name owner i c fits free at
