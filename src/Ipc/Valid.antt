-- ===== src/Ipc/Valid.antt =====
-- The invariant of the endpoint table, which every call keeps.
use nonameos.Prelude.{
  ℕ, ◌≤◌, ◌≡◌, ◌∙◌, false, not, List, arith, length, set, length-set, length-replicate,
  get_or-replicate, get_or-set_cases, length-copy_prefix, inl, inr, ltb, Bool-cases, Option-cases,
  subst, sym,
}
use nonameos.Prelude.Find.{find_index}
use nonameos.Ipc.Queue.{IsQueue, enqueue-IsQueue, dequeue-IsQueue}
use nonameos.Ipc.{
  Message, Endpoint, Endpoints, empty_message, empty_endpoint, endpoint, boot, max_endpoints,
  max_name_len, queue_size, enqueue, dequeue, claim, register_endpoint, send, receive,
  unregister_endpoint,
}

pub record IsEndpoint (e : Endpoint) : Type 0 where
  pub queue : IsQueue e
  pub name_room : length e.name ≡ max_name_len
  pub name_fits : e.name_len ≤ max_name_len

pub record IsTable (es : Endpoints) : Type 0 where
  pub size : length es ≡ max_endpoints
  pub each : (i : ℕ) → IsEndpoint (endpoint es i)

empty-IsEndpoint : IsEndpoint empty_endpoint
unfolding empty_endpoint
empty-IsEndpoint = record {
  queue = record {
    slots = length-replicate queue_size empty_message;
    read = omega arith;
    write = omega arith;
    count = omega arith;
  };
  name_room = length-replicate {A = ℕ} max_name_len 0;
  name_fits = omega arith;
}

pub boot-IsTable : IsTable boot
unfolding boot
boot-IsTable = record {
  size = length-replicate max_endpoints empty_endpoint;
  each = λ i.
      subst IsEndpoint (sym (get_or-replicate max_endpoints i empty_endpoint)) empty-IsEndpoint;
}

-- Writing back a valid endpoint keeps the table valid.
set-IsTable :
    (es : Endpoints) (i : ℕ) (e : Endpoint) → IsTable es → IsEndpoint e → IsTable (set es i e)
set-IsTable es i e t v = record {
  size = length-set es i e ∙ t.size;
  each = λ j. elim (get_or-set_cases es i j e empty_endpoint) [
    | inl here ↦ subst IsEndpoint (sym here) v
    | inr there ↦ subst IsEndpoint (sym there) (t.each j)
  ];
}

enqueue-IsEndpoint : (e : Endpoint) (msg : Message) → IsEndpoint e → IsEndpoint (enqueue e msg).0
unfolding enqueue
enqueue-IsEndpoint e msg v = ground (arith, enqueue-IsQueue e v.queue msg)

dequeue-IsEndpoint : (e : Endpoint) → IsEndpoint e → IsEndpoint (dequeue e).0
unfolding dequeue
dequeue-IsEndpoint e v = ground (arith, dequeue-IsQueue e v.queue)

claim-IsEndpoint :
    (name : List ℕ) (owner : ℕ) (e : Endpoint)
    → length name ≤ max_name_len
    → IsEndpoint e
    → IsEndpoint (claim name owner e)
unfolding claim
claim-IsEndpoint name owner e fits v = record {
  queue = record {
    slots = v.queue.slots;
    read = v.queue.read;
    write = v.queue.write;
    count = v.queue.count;
  };
  name_room = length-copy_prefix name e.name (omega (arith, v.name_room)) ∙ v.name_room;
  name_fits = fits;
}

closed-IsEndpoint : (e : Endpoint) → IsEndpoint e → IsEndpoint (record e { active = false })
closed-IsEndpoint e v = record {
  queue = record {
    slots = v.queue.slots;
    read = v.queue.read;
    write = v.queue.write;
    count = v.queue.count;
  };
  name_room = v.name_room;
  name_fits = v.name_fits;
}

pub send-IsTable :
    (id : ℕ) (msg : Message) (es : Endpoints) → IsTable es → IsTable (send id msg es).1
unfolding send
send-IsTable id msg es t = ground (
  arith,
  t,
  set-IsTable es id (enqueue (endpoint es id) msg).0 t (enqueue-IsEndpoint _ msg (t.each id)),
)

pub receive-IsTable : (id : ℕ) (es : Endpoints) → IsTable es → IsTable (receive id es).1
unfolding receive
receive-IsTable id es t =
    ground (
      arith,
      t,
      set-IsTable es id (dequeue (endpoint es id)).0 t (dequeue-IsEndpoint _ (t.each id)),
    )

pub unregister-IsTable :
    (id : ℕ) (es : Endpoints) → IsTable es → IsTable (unregister_endpoint id es)
unfolding unregister_endpoint
unregister-IsTable id es t = ground (
  arith,
  t,
  set-IsTable es id (record (endpoint es id) { active = false }) t
      (closed-IsEndpoint _ (t.each id)),
)

pub register-IsTable :
    (name : List ℕ) (owner : ℕ) (es : Endpoints)
    → IsTable es
    → IsTable (register_endpoint name owner es).1
unfolding register_endpoint
register-IsTable name owner es t = elim (Bool-cases (ltb max_name_len (length name))) [
  | inl long ↦ rw long t
  | inr fits ↦ elim (Option-cases (find_index (λ (e : Endpoint). not e.active) es)) [
    | inl none_free ↦ rw (fits, none_free) t
    | inr (i, found) ↦
        rw (fits, found)
          (set-IsTable es i _ t (claim-IsEndpoint name owner _ (ground arith) (t.each i)))
  ]
]
