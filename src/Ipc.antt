-- ===== src/Ipc.antt =====
-- kernel/src/ipc.rs: messages, and the global table of named endpoints with their queues.
-- An index past an array is ruled out by `Ipc.Valid`; a read of one gives a default here.
pub mod Spec
pub mod Queue
pub mod Valid
pub mod Refine
pub mod Run
pub mod Messages
mod Tests
use nonameos.Prelude.{
  ℕ, ◌%◌, min, Bool, true, false, not, ◌&&◌, ◌||◌, List, map, Option, none, some, length, get_or,
  set, take, replicate, copy_prefix, bytes_eq, ltb, leb, ◌==◌, if◌then◌else◌, add_usize, sub_usize,
}
use nonameos.Prelude.Find.{find_index}

abbrev pub max_payload : ℕ
max_payload = 256

abbrev pub max_endpoints : ℕ
max_endpoints = 64

abbrev pub max_name_len : ℕ
max_name_len = 32

abbrev pub queue_size : ℕ
queue_size = 16

pub data MessageType : Type 0 where
  request response notification error : MessageType

-- `status` is the bit pattern of an `i32`: it is only moved.
pub record Message : Type 0 where
  pub sender : ℕ
  pub msg_type : MessageType
  pub opcode : ℕ
  pub status : ℕ
  pub payload_len : ℕ
  pub payload : List ℕ

unfoldable pub empty_message : Message
empty_message = record {
  sender = 0;
  msg_type = MessageType.request;
  opcode = 0;
  status = 0;
  payload_len = 0;
  payload = replicate max_payload 0;
}

-- `Message::request`
unfoldable pub make_request : ℕ → List ℕ → Message
unfolding empty_message
make_request opcode bytes =
    let len = min (length bytes) max_payload in
    record empty_message {
      msg_type = MessageType.request;
      opcode = opcode;
      payload = copy_prefix (take len bytes) empty_message.payload;
      payload_len = len;
    }

-- `Message::response`
unfoldable pub make_response : ℕ → ℕ → List ℕ → Message
unfolding empty_message
make_response opcode status bytes =
    let len = min (length bytes) max_payload in
    record empty_message {
      msg_type = MessageType.response;
      opcode = opcode;
      status = status;
      payload = copy_prefix (take len bytes) empty_message.payload;
      payload_len = len;
    }

pub record Endpoint : Type 0 where
  pub name : List ℕ
  pub name_len : ℕ
  pub owner : ℕ
  pub active : Bool
  pub queue : List Message
  pub queue_read : ℕ
  pub queue_write : ℕ
  pub queue_count : ℕ

unfoldable pub empty_endpoint : Endpoint
empty_endpoint = record {
  name = replicate max_name_len 0;
  name_len = 0;
  owner = 0;
  active = false;
  queue = replicate queue_size empty_message;
  queue_read = 0;
  queue_write = 0;
  queue_count = 0;
}

-- `Endpoint::enqueue`: the endpoint, and `false` if its queue is full.
unfoldable pub enqueue : Endpoint → Message → Endpoint × Bool
enqueue e msg = if leb queue_size e.queue_count then (e, false) else (
  record e {
    queue = set e.queue e.queue_write msg;
    queue_write = add_usize e.queue_write 1 % queue_size;
    queue_count = add_usize e.queue_count 1;
  },
  true,
)

-- `Endpoint::dequeue`
unfoldable pub dequeue : Endpoint → Endpoint × Option Message
dequeue e = if e.queue_count == 0 then (e, none) else (
  record e {
    queue_read = add_usize e.queue_read 1 % queue_size;
    queue_count = sub_usize e.queue_count 1;
  },
  some (get_or e.queue e.queue_read empty_message),
)

-- The static array ENDPOINTS.
abbrev pub Endpoints : Type 0
Endpoints = List Endpoint

unfoldable pub boot : Endpoints
boot = replicate max_endpoints empty_endpoint

abbrev pub endpoint : Endpoints → ℕ → Endpoint
endpoint es i = get_or es i empty_endpoint

-- What `register_endpoint` writes into a slot. Its queue stays as it was.
unfoldable pub claim : List ℕ → ℕ → Endpoint → Endpoint
claim name owner e = record e {
  active = true;
  owner = owner;
  name_len = length name;
  name = copy_prefix name e.name;
}

unfoldable pub register_endpoint : List ℕ → ℕ → Endpoints → Option ℕ × Endpoints
register_endpoint name owner es =
    if ltb max_name_len (length name)
    then (none, es)
    else elim (find_index (λ (e : Endpoint). not e.active) es) [
      | none ↦ (none, es)
      | some i ↦ (some i, set es i (claim name owner (endpoint es i)))
    ]

unfoldable pub has_name : List ℕ → Endpoint → Bool
has_name name e =
    e.active && (e.name_len == length name) && bytes_eq (take (length name) e.name) name

unfoldable pub find_endpoint : List ℕ → Endpoints → Option ℕ
find_endpoint name es = find_index (has_name name) es

pub data SendError : Type 0 where
  invalid_endpoint queue_full : SendError

pub data SendResult : Type 0 where
  ok : SendResult
  err : SendError → SendResult

unfoldable pub send : ℕ → Message → Endpoints → SendResult × Endpoints
send id msg es =
    if leb max_endpoints id || not (endpoint es id).active
    then (err invalid_endpoint, es)
    else let (e, sent) = enqueue (endpoint es id) msg in
      if sent then (ok, set es id e) else (err queue_full, set es id e)

-- The field by field copy that `receive` returns.
unfoldable pub copy_message : Message → Message
copy_message msg = record empty_message {
  sender = msg.sender;
  msg_type = msg.msg_type;
  opcode = msg.opcode;
  status = msg.status;
  payload_len = msg.payload_len;
  payload = msg.payload;
}

unfoldable pub receive : ℕ → Endpoints → Option Message × Endpoints
receive id es =
    if leb max_endpoints id || not (endpoint es id).active
    then (none, es)
    else let (e, msg) = dequeue (endpoint es id) in
      (elim msg [ none ↦ none | some m ↦ some (copy_message m) ], set es id e)

unfoldable pub unregister_endpoint : ℕ → Endpoints → Endpoints
unregister_endpoint id es =
    if ltb id max_endpoints then set es id (record (endpoint es id) { active = false }) else es
