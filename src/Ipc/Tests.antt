-- ===== src/Ipc/Tests.antt =====
-- Two endpoints, a message, and a queue that outlives its endpoint.
use nonameos.Prelude.{ℕ, ◌≡◌, refl, false, not, get_elem?, List, [], ◌∷◌, some, arith}
use nonameos.Ipc.Spec.{Channel}
use nonameos.Prelude.Find.{find_index}
use nonameos.Ipc.Valid.{IsTable}
use nonameos.Ipc.Refine.{views}
use nonameos.Ipc.Run.{
  Call, step, registers, finds, sends, receives, unregisters, run, spec_run, after, run_refines,
  after-IsTable, stale_message,
}
use nonameos.Ipc.{
  Message, Endpoints, boot, make_request, register_endpoint, receive, unregister_endpoint, send,
  empty_endpoint, claim, enqueue,
}

abbrev vga : List ℕ
vga = 118 ∷ 103 ∷ 97 ∷ []

abbrev kbd : List ℕ
kbd = 107 ∷ 98 ∷ 100 ∷ []

abbrev greeting : Message
greeting = make_request 1 (72 ∷ 105 ∷ [])

abbrev calls : List Call
calls =
    registers vga 7
    ∷ registers kbd 8
    ∷ finds kbd
    ∷ sends 1 greeting
    ∷ receives 1
    ∷ receives 1
    ∷ unregisters 0
    ∷ []

run_refines_example : run calls boot ≡ spec_run calls (views boot)
run_refines_example = run_refines calls

-- The first endpoint is sent a message and given up before it is read.
abbrev left : Endpoints
left = after (registers vga 7 ∷ sends 0 greeting ∷ unregisters 0 ∷ []) boot

abbrev stale : Channel
stale = record { name = vga; owner = 7; active = false; items = greeting ∷ [] }

left-IsTable : IsTable left
left-IsTable = after-IsTable (registers vga 7 ∷ sends 0 greeting ∷ unregisters 0 ∷ [])

free : find_index (λ (c : Channel). not c.active) (views left) ≡ some 0
unfolding after step find_index boot unregister_endpoint send register_endpoint empty_endpoint claim
    enqueue
free = refl

there : get_elem? (views left) 0 ≡ some stale
unfolding after step find_index boot unregister_endpoint send register_endpoint empty_endpoint claim
    enqueue
there = refl

stale_message_example :
    ((register_endpoint kbd 8 left).0 ≡ some 0)
    × ((receive 0 (register_endpoint kbd 8 left).1).0 ≡ some greeting)
stale_message_example =
    stale_message left kbd 8 0 stale greeting [] left-IsTable (omega arith) free there refl
