-- ===== src/Server/RelayTests.antt =====
-- The relay of server.rs with one request, whose handler answers two packets.
use coap_server_rs.Base.{ℕ, ◌+◌, ◌<◌, ◌≡◌, refl, List, [], ◌∷◌}
use coap_server_rs.Transport.{FramedItem}
use coap_server_rs.Server.{gen_and_send_responses}
use coap_server_rs.Server.Relay.{
  System, set, idle_system, spawn_task, relay, take_packet, Reachable, bound, received, relayed,
}
use coap_server_rs.Server.Relay.Fifo.{IsFifo, of_task, Reachable-IsFifo}
use coap_server_rs.Server.Relay.Peers.{IsFor, AreFrom, Reachable-IsFor}
use coap_server_rs.Server.Relay.Drain.{work, Steps, here, takes, Reachable_drains}

abbrev handle : ℕ → ℕ → ℕ → List ℕ
handle h p e = (h + p) ∷ (p ∷ [])

abbrev answered : System (FramedItem ℕ ℕ)
answered = record {
  spawned = 1;
  streams = set (λ i. []) 0 ((15, 1) ∷ (5, 1) ∷ []);
  tasks = set (set (λ i. []) 0 ((15, 1) ∷ (5, 1) ∷ [])) 0 ((5, 1) ∷ []);
  channel = (0, (15, 1)) ∷ [];
  sent = [];
}

abbrev first_sent : System (FramedItem ℕ ℕ)
first_sent = record answered { channel = []; sent = (0, (15, 1)) ∷ [] }

unfoldable answered-Reachable : Reachable handle 10 answered
unfolding relay spawn_task gen_and_send_responses
answered-Reachable = relayed _ answered 0 refl (received idle_system (5, 1) bound)

first_sent-Steps : Steps answered 1 first_sent
unfolding take_packet
first_sent-Steps = takes 0 answered first_sent here refl

Reachable-IsFifo_example : IsFifo answered
Reachable-IsFifo_example = Reachable-IsFifo handle 10 answered-Reachable

Reachable_drains_example :
    (1 + work first_sent ≡ work answered)
    × (1 < work answered → (u : System (FramedItem ℕ ℕ)) × Steps answered 2 u)
    × (1 ≡ work answered → (i : ℕ) → of_task i first_sent.sent ≡ answered.streams i)
Reachable_drains_example =
    Reachable_drains handle 10 1 first_sent answered-Reachable first_sent-Steps

abbrev IsOne : ℕ → Type 0
IsOne peer = peer ≡ 1

answered-AreFrom : AreFrom handle 10 IsOne answered-Reachable
unfolding answered-Reachable
answered-AreFrom = (refl, tt)

Reachable-IsFor_example : IsFor IsOne answered
Reachable-IsFor_example = Reachable-IsFor handle 10 IsOne answered-Reachable answered-AreFrom
