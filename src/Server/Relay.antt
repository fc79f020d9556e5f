-- ===== src/Server/Relay.antt =====
-- The relay of server.rs: each request is handled in a task of its own, which puts its packets on a
-- channel that holds 32 at most, and the loop of the server takes them off it. The state is that of
-- all tasks, and the steps are interleaved in any order.
pub mod Fifo
pub mod Drain
pub mod Peers
use coap_server_rs.Base.{
  ℕ, suc, ◌+◌, ◌<◌, Bool, true, false, Option, none, some, List, [], ◌∷◌, ◌++◌, length, ltb,
  nat_beq, if◌then◌else◌, ◌≡◌,
}
use coap_server_rs.Transport.{FramedItem}
use coap_server_rs.Server.{gen_and_send_responses}

-- The capacity of the channel that `bind` makes.
abbrev pub relay_capacity : ℕ
relay_capacity = 32

-- `spawned` tasks have been started. Of task i, `streams i` is all that its handler answers, and
-- `tasks i` what it has not put on the channel yet. An item on the channel and an item given to the
-- transport carry the number of their task.
pub record System (Item : Type 0) : Type 0 where
  pub spawned : ℕ
  pub streams : ℕ → List Item
  pub tasks : ℕ → List Item
  pub channel : List (ℕ × Item)
  pub sent : List (ℕ × Item)

module _ {A : Type 0} where
  abbrev pub set : (ℕ → A) → ℕ → A → ℕ → A
  set f i a j = if nat_beq i j then a else f j

module _ {Item : Type 0} where
  abbrev pub idle_system : System Item
  idle_system = record { spawned = 0; streams = λ i. []; tasks = λ i. []; channel = []; sent = [] }

  -- A new task, for a handler's answers.
  unfoldable pub spawn_task : List Item → System Item → System Item
  spawn_task stream s = record s {
    spawned = suc s.spawned;
    streams = set s.streams s.spawned stream;
    tasks = set s.tasks s.spawned stream;
  }

  abbrev pub relay_next : ℕ → System Item → List Item → Option (System Item)
  relay_next i s [] = none
  relay_next i s (item ∷ rest) =
      some (record s { tasks = set s.tasks i rest; channel = s.channel ++ (i, item) ∷ [] })

  -- Task i sends its next packet, if it has one; while the channel is full it waits.
  unfoldable pub relay : ℕ → System Item → Option (System Item)
  relay i s = if ltb (length s.channel) relay_capacity then relay_next i s (s.tasks i) else none

  abbrev pub take_from : System Item → List (ℕ × Item) → Option (System Item)
  take_from s [] = none
  take_from s (item ∷ rest) = some (record s { channel = rest; sent = s.sent ++ item ∷ [] })

  -- The loop of the server takes a packet off the channel and gives it to the transport.
  unfoldable pub take_packet : System Item → Option (System Item)
  take_packet s = take_from s s.channel

module _ {Handler Packet Endpoint : Type 0} (handle : Handler → Packet → Endpoint → List Packet)
    (handler : Handler) where
  -- The states that the server comes to, in any interleaving of requests, tasks and its loop.
  pub data Reachable : System (FramedItem Packet Endpoint) → Type 0 where
    bound : Reachable idle_system
    received :
        (s : System (FramedItem Packet Endpoint)) (request : FramedItem Packet Endpoint)
        → Reachable s
        → Reachable (spawn_task (gen_and_send_responses handle (handler, request)) s)
    relayed :
        (s t : System (FramedItem Packet Endpoint)) (i : ℕ)
        → relay i s ≡ some t
        → Reachable s
        → Reachable t
    taken :
        (s t : System (FramedItem Packet Endpoint))
        → take_packet s ≡ some t
        → Reachable s
        → Reachable t
