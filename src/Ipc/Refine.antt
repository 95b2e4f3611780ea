-- ===== src/Ipc/Refine.antt =====
-- The endpoint table behaves as the registry of `Ipc.Spec`: each call gives the same reply, and
-- leaves a table with the view that the specification computes.
use nonameos.Prelude.{
  ℕ, ◌≤◌, ◌<◌, ◌≡◌, refl, ap, ◌∙◌, true, false, not, ◌&&◌, List, map, Option, none, some, arith,
  length, get_elem?, set, take, map-set, get_elem?-map, get_elem?-none, length-map, length-take,
  take-append, length_of_bytes_eq, lt-length_of_get_elem?, bytes_eq, inl, inr, ltb, ◌==◌,
  Bool-cases, eq_of_test,
}
use nonameos.Prelude.Find.{find_index, find_index-map, find_index_cases}
use nonameos.Ipc.Spec
use nonameos.Ipc.Spec.{Channel, Registry}
use nonameos.Ipc.Queue.{contents, enqueue_refines, dequeue_refines}
use nonameos.Ipc.Valid.{IsTable, IsEndpoint}
use nonameos.Ipc.{
  Message, Endpoint, Endpoints, empty_endpoint, endpoint, max_endpoints, max_name_len, enqueue,
  dequeue, claim, has_name, register_endpoint, find_endpoint, send, copy_message, receive,
  unregister_endpoint,
}

abbrev pub view : Endpoint → Channel
view e = record {
  name = take e.name_len e.name;
  owner = e.owner;
  active = e.active;
  items = contents e;
}

abbrev pub views : Endpoints → Registry
views es = map view es

copy_message_lem : (msg : Message) → copy_message msg ≡ msg
unfolding copy_message
copy_message_lem msg = refl

copied : (m : Option Message) → (elim m [ none ↦ none | some a ↦ some (copy_message a) ]) ≡ m
copied none = refl
copied (some a) = ap some (copy_message_lem a)

view-enqueue :
    (e : Endpoint) (msg : Message)
    → IsEndpoint e
    → view (enqueue e msg).0 ≡ record (view e) { items = (Spec.push (contents e) msg).0 }
unfolding enqueue
view-enqueue e msg v = ground (arith, enqueue_refines e v.queue msg)

view-dequeue :
    (e : Endpoint)
    → IsEndpoint e
    → view (dequeue e).0 ≡ record (view e) { items = (Spec.pop (contents e)).0 }
unfolding dequeue
view-dequeue e v = ground (arith, dequeue_refines e v.queue)

view-claim :
    (name : List ℕ) (owner : ℕ) (e : Endpoint)
    → view (claim name owner e) ≡ record (view e) { name = name; owner = owner; active = true }
unfolding claim
view-claim name owner e =
    ap (λ n. record (view e) { name = n; owner = owner; active = true }) (take-append name _)

module _ (es : Endpoints) (t : IsTable es) where
  lookup-view :
      (id : ℕ) → id < max_endpoints → get_elem? (views es) id ≡ some (view (endpoint es id))
  lookup-view id lt = get_elem?-map view es id empty_endpoint (omega (arith, t.size))

  lookup-none : (id : ℕ) → max_endpoints ≤ id → get_elem? (views es) id ≡ none
  lookup-none id le = get_elem?-none (views es) id (omega (arith, t.size, length-map view es))

  write-view :
      (id : ℕ) (e : Endpoint) (c : Channel) → view e ≡ c → views (set es id e) ≡ set (views es) id c
  write-view id e c h = map-set view es id e ∙ ap (set (views es) id) h

  -- `send`: the same reply, an error included, and the same registry afterwards.
  pub send_refines :
      (id : ℕ) (msg : Message)
      → ((send id msg es).0, views (send id msg es).1) ≡ Spec.send id msg (views es)
  unfolding send Spec.send
  send_refines id msg = ground (
    arith,
    lookup-none id,
    lookup-view id,
    enqueue_refines (endpoint es id) (t.each id).queue msg,
    write-view id (enqueue (endpoint es id) msg).0 _
        (view-enqueue (endpoint es id) msg (t.each id)),
  )

  pub receive_refines :
      (id : ℕ) → ((receive id es).0, views (receive id es).1) ≡ Spec.receive id (views es)
  unfolding receive Spec.receive
  receive_refines id = ground (
    arith,
    lookup-none id,
    lookup-view id,
    copied (dequeue (endpoint es id)).1,
    dequeue_refines (endpoint es id) (t.each id).queue,
    write-view id (dequeue (endpoint es id)).0 _ (view-dequeue (endpoint es id) (t.each id)),
  )

  pub unregister_refines :
      (id : ℕ) → views (unregister_endpoint id es) ≡ Spec.unregister id (views es)
  unfolding unregister_endpoint Spec.unregister
  unregister_refines id = ground (
    arith,
    lookup-none id,
    lookup-view id,
    write-view id (record (endpoint es id) { active = false }) _ refl,
  )

  name_test :
      (name : List ℕ) (e : Endpoint)
      → IsEndpoint e
      → has_name name e ≡ ((view e).active && bytes_eq (view e).name name)
  unfolding has_name
  name_test name e v = elim (Bool-cases (e.name_len == length name)) [
    | inl same ↦ ground (
      arith,
      same,
      ap (λ n. bytes_eq (take n e.name) name) (eq_of_test e.name_len (length name) same),
    )
    | inr other ↦ ground (
      arith,
      other,
      v.name_room,
      length-take e.name_len e.name,
      length_of_bytes_eq (take e.name_len e.name) name,
    )
  ]

  pub find_refines : (name : List ℕ) → find_endpoint name es ≡ Spec.find name (views es)
  unfolding find_endpoint Spec.find
  find_refines name =
      find_index-map view _ (has_name name) es empty_endpoint
        (λ i _. name_test name (endpoint es i) (t.each i))

  free_slots :
      find_index (λ (e : Endpoint). not e.active) es
      ≡ find_index (λ (c : Channel). not c.active) (views es)
  free_slots = find_index-map view _ (λ e. not e.active) es empty_endpoint (λ i _. refl)

  pub register_refines :
      (name : List ℕ) (owner : ℕ)
      → ((register_endpoint name owner es).0, views (register_endpoint name owner es).1)
        ≡ Spec.register name owner (views es)
  unfolding register_endpoint Spec.register
  register_refines name owner = elim (Bool-cases (ltb max_name_len (length name))) [
    | inl long ↦ rw long refl
    | inr fits ↦ elim (find_index_cases (λ (e : Endpoint). not e.active) es) [
      | inl (full, _) ↦ ground (arith, full, free_slots)
      | inr (i, found, first) ↦ ground (
        arith,
        found,
        free_slots,
        lookup-view i (omega (arith, t.size, lt-length_of_get_elem? es i first.entry first.there)),
        write-view i (claim name owner (endpoint es i)) _ (view-claim name owner (endpoint es i)),
      )
    ]
  ]
