-- ===== src/Syscall/Channel.antt =====
-- A message through an endpoint, from user memory to user memory: kernel/src/syscall.rs over Ipc.
use nonameos.Prelude.{
  ℕ, zero, suc, ◌+◌, ◌≡◌, ◌<◌, ◌≤◌, refl, ap, sym, subst, ◌∙◌, ◌⊎◌, Bool, true, List, Option, some,
  length, get_or, set, take, min, arith, get_or-set_self, length-take, take-all,
}
use nonameos.Ipc
use nonameos.Ipc.{
  Message, Endpoint, Endpoints, endpoint, empty_message, empty_endpoint, enqueue, dequeue,
  copy_message, make_request, max_endpoints,
}
use nonameos.Ipc.Valid.{IsTable}
use nonameos.Ipc.Messages.{Carries, request_response_carry}
use nonameos.Vfs.Ramfs.{read_bytes}
use nonameos.Syscall.{Kernel, user_bytes, send_code, deliver, sys_ipc_send, sys_ipc_recv}

get_or-read_bytes :
    (mem : ℕ → ℕ) (addr n i : ℕ) → i < n → get_or (read_bytes mem addr n) i 0 ≡ mem (addr + i)
get_or-read_bytes mem addr zero i lt = absurd (omega arith)
get_or-read_bytes mem addr (suc n) zero lt = ap mem (omega arith)
get_or-read_bytes mem addr (suc n) (suc i) lt =
    get_or-read_bytes mem (addr + 1) n i (omega arith) ∙ ap mem (omega arith)

length-read_bytes : (mem : ℕ → ℕ) (addr n : ℕ) → length (read_bytes mem addr n) ≡ n
length-read_bytes mem addr zero = refl
length-read_bytes mem addr (suc n) = ap suc (length-read_bytes mem (addr + 1) n)

-- A message sent to an endpoint with an empty queue is the next one that is received there.
record Passed (id : ℕ) (msg : Message) (es : Endpoints) : Type 0 where
  sent : (Ipc.send id msg es).0 ≡ Ipc.ok
  received : (Ipc.receive id (Ipc.send id msg es).1).0 ≡ some msg

module _ (id : ℕ) (msg : Message) (es : Endpoints) (t : IsTable es) where
  -- The endpoint with the message in its queue.
  filled : Endpoint
  filled = (enqueue (endpoint es id) msg).0

  module _ (lt : id < max_endpoints) (active : (endpoint es id).active ≡ true)
      (empty : (endpoint es id).queue_count ≡ 0) where
    put : enqueue (endpoint es id) msg ≡ (filled, true)
    unfolding filled enqueue
    put =
        let taken : (enqueue (endpoint es id) msg).1 ≡ true = ground (arith, empty) in
        ap (λ (b : Bool). (filled, b)) taken

    sent_as : Ipc.send id msg es ≡ (Ipc.ok, set es id filled)
    unfolding Ipc.send
    sent_as = ground (arith, lt, active, put)

    oldest : (dequeue filled).1 ≡ some msg
    unfolding filled enqueue dequeue
    oldest =
        let q = (t.each id).queue in
        ground (
          arith,
          empty,
          q.read,
          q.write,
          q.slots,
          get_or-set_self (endpoint es id).queue (endpoint es id).queue_write msg empty_message,
        )

    still_active : filled.active ≡ true
    unfolding filled enqueue
    still_active = ground (arith, active, empty)

    received_from : (Ipc.receive id (set es id filled)).0 ≡ some msg
    unfolding Ipc.receive copy_message
    received_from =
        let here = get_or-set_self es id filled empty_endpoint (omega (arith, lt, t.size)) in
        ground (arith, here, still_active, oldest, lt)

    send-Passed : Passed id msg es
    send-Passed = record {
      sent = ap (λ (r : Ipc.SendResult × Endpoints). r.0) sent_as;
      received =
          ap (λ (r : Ipc.SendResult × Endpoints). (Ipc.receive id r.1).0) sent_as ∙ received_from;
    }

-- What a receiver finds at `dst` that a sender had at `src`.
pub record Carried (k k' : Kernel) (src dst len n : ℕ) : Type 0 where
  pub counted : n ≡ min len 256
  pub content : (i : ℕ) → i < n → k'.fs.mem (dst + i) ≡ k.fs.mem (src + i)
  pub elsewhere : (a : ℕ) → (a < dst) ⊎ (dst + n ≤ a) → k'.fs.mem a ≡ k.fs.mem a

module _ (k : Kernel) (src len : ℕ) where
  -- The bytes that `sys_ipc_send` copies into its message.
  payload : List ℕ
  payload = user_bytes src (min len 256) k

  module _ (dst : ℕ) (msg : Message) (c : Carries msg payload) (es : Endpoints) where
    size : msg.payload_len ≡ min len 256
    unfolding payload
    size = omega (arith, c.counted, length-read_bytes k.fs.mem src (min len 256))

    copied :
        (i : ℕ)
        → i < msg.payload_len
        → get_or (take msg.payload_len msg.payload) i 0 ≡ k.fs.mem (src + i)
    unfolding payload
    copied i lt =
        let short =
          take-all 256 payload (omega (arith, length-read_bytes k.fs.mem src (min len 256))) in
        ap (λ (xs : List ℕ). get_or xs i 0) (c.content ∙ short)
        ∙ get_or-read_bytes k.fs.mem src (min len 256) i (omega (arith, lt, size))

    copied_length : length (take msg.payload_len msg.payload) ≡ msg.payload_len
    copied_length = omega (arith, length-take msg.payload_len msg.payload, c.room, size)

    deliver-Carried :
        Carried k
          (deliver dst (some msg) (record k { endpoints = es })).1
          src
          dst
          len
          (deliver dst (some msg) (record k { endpoints = es })).0
    unfolding deliver
    deliver-Carried = record {
      counted = size;
      content = λ i lt. ground (arith, copied i lt, copied_length, lt);
      elsewhere = λ a out. ground (arith, out, copied_length);
    }

module _ (k : Kernel) (src len : ℕ) where
  message : Message
  message = make_request 0 (payload k src len)

  message-Carries : Carries message (payload k src len)
  unfolding message
  message-Carries = (request_response_carry 0 0 (payload k src len)).0

module _ (k : Kernel) (id src dst len : ℕ) where
  sent_code : Passed id (message k src len) k.endpoints → (sys_ipc_send id src len k).0 ≡ 0
  unfolding sys_ipc_send payload message
  sent_code p = ap send_code p.sent

  rest : Endpoints
  rest = (Ipc.receive id (Ipc.send id (message k src len) k.endpoints).1).1

  delivered :
      Passed id (message k src len) k.endpoints
      → sys_ipc_recv id dst (sys_ipc_send id src len k).1
        ≡ deliver dst (some (message k src len)) (record k { endpoints = rest })
  unfolding sys_ipc_send sys_ipc_recv payload message rest
  delivered p =
      ap (λ (received : Option Message). deliver dst received (record k { endpoints = rest }))
        p.received

-- On an endpoint of a valid table that is in use and has no message waiting, `sys_ipc_send`
-- succeeds, and `sys_ipc_recv` there then returns the length sent, cut to 256, puts the sender's
-- bytes at the receiver's buffer, wherever that is, and changes no other byte.
pub sys_ipc_send-sys_ipc_recv :
    (id src dst len : ℕ) (k : Kernel)
    → IsTable k.endpoints
    → id < max_endpoints
    → (endpoint k.endpoints id).active ≡ true
    → (endpoint k.endpoints id).queue_count ≡ 0
    → ((sys_ipc_send id src len k).0 ≡ 0)
      × Carried k
          (sys_ipc_recv id dst (sys_ipc_send id src len k).1).1
          src
          dst
          len
          (sys_ipc_recv id dst (sys_ipc_send id src len k).1).0
sys_ipc_send-sys_ipc_recv id src dst len k t lt active empty =
    let passed = send-Passed id (message k src len) k.endpoints t lt active empty in
    let carried =
      deliver-Carried k src len dst _ (message-Carries k src len) (rest k id src dst len) in
    (
      sent_code k id src dst len passed,
      subst (λ (r : ℕ × Kernel). Carried k r.1 src dst len r.0)
          (sym (delivered k id src dst len passed)) carried,
    )
