-- ===== src/Server/Relay/Peers.antt =====
-- Whom server.rs sends packets to.
use coap_server_rs.Base.{
  ℕ, some, List, [], ◌∷◌, map, nat_beq, All, All-append, ◌≡◌, Bool-cases, inl, inr,
}
use mathlib.Core.Path.{subst}
use coap_server_rs.Transport.{FramedItem}
use coap_server_rs.Server.{gen_and_send_responses}
use coap_server_rs.Server.Relay.{
  System, spawn_task, relay, take_packet, Reachable, bound, received, relayed, taken,
}
use coap_server_rs.Server.Relay.Fifo.{relay_cases, take_cases}

module _ {Packet Endpoint : Type 0} (P : Endpoint → Type 0) where
  -- Every packet of a task, on the channel or sent is for such a peer.
  pub record IsFor (s : System (FramedItem Packet Endpoint)) : Type 0 where
    pub of_tasks : (i : ℕ) → All (λ item. P item.1) (s.tasks i)
    pub on_channel : All (λ item. P item.1.1) s.channel
    pub in_sent : All (λ item. P item.1.1) s.sent

  spawned-IsFor :
      (stream : List (FramedItem Packet Endpoint)) (s : System (FramedItem Packet Endpoint))
      → All (λ item. P item.1) stream
      → IsFor s
      → IsFor (spawn_task stream s)
  unfolding spawn_task
  spawned-IsFor stream s p h = record {
    of_tasks = λ i. elim (Bool-cases (nat_beq s.spawned i)) [
      | inl y ↦ rw y p
      | inr n ↦ rw n (h.of_tasks i)
    ];
    on_channel = h.on_channel;
    in_sent = h.in_sent;
  }

  relayed-IsFor :
      (i : ℕ) (s t : System (FramedItem Packet Endpoint)) → relay i s ≡ some t → IsFor s → IsFor t
  relayed-IsFor i s t e h =
      let (item, rest, q, _, same) = relay_cases i s t e in
      let left : All (λ item. P item.1) (item ∷ rest) =
        subst (All (λ item. P item.1)) q (h.of_tasks i) in
      subst IsFor same (record {
        of_tasks = λ j. elim (Bool-cases (nat_beq i j)) [
          | inl y ↦ rw y left.1
          | inr n ↦ rw n (h.of_tasks j)
        ];
        on_channel =
            All-append (λ item. P item.1.1) s.channel ((i, item) ∷ []) h.on_channel (left.0, tt);
        in_sent = h.in_sent;
      })

  taken-IsFor :
      (s t : System (FramedItem Packet Endpoint)) → take_packet s ≡ some t → IsFor s → IsFor t
  taken-IsFor s t e h =
      let (j, item, rest, q, same) = take_cases s t e in
      let waiting : All (λ item. P item.1.1) ((j, item) ∷ rest) =
        subst (All (λ item. P item.1.1)) q h.on_channel in
      subst IsFor same (record {
        of_tasks = h.of_tasks;
        on_channel = waiting.1;
        in_sent = All-append (λ item. P item.1.1) s.sent ((j, item) ∷ []) h.in_sent (waiting.0, tt);
      })

module _ {Handler Packet Endpoint : Type 0} (handle : Handler → Packet → Endpoint → List Packet)
    (handler : Handler) (P : Endpoint → Type 0) where
  responses_for_peer :
      (packet : Packet) (peer : Endpoint)
      → P peer
      → All (λ item. P item.1) (gen_and_send_responses handle (handler, (packet, peer)))
  unfolding gen_and_send_responses
  responses_for_peer packet peer p = of_packets (handle handler packet peer)
    where
      of_packets :
          (ps : List Packet)
          → All {A = FramedItem Packet Endpoint} (λ item. P item.1) (map (λ q. (q, peer)) ps)
      of_packets [] = tt
      of_packets (q ∷ ps) = (p, of_packets ps)

  -- Every request on the way to the state is from such a peer.
  abbrev pub AreFrom :
      {s : System (FramedItem Packet Endpoint)} → Reachable handle handler s → Type 0
  AreFrom bound = Unit {0}
  AreFrom (received s request r) = P request.1 × AreFrom r
  AreFrom (relayed s t i e r) = AreFrom r
  AreFrom (taken s t e r) = AreFrom r

  -- Whatever holds of every peer that a packet has come from holds of every peer that a packet is
  -- sent to, or will be by a task that has been started: no packet is sent to a peer that has sent none.
  pub Reachable-IsFor :
      {s : System (FramedItem Packet Endpoint)} (r : Reachable handle handler s)
      → AreFrom r
      → IsFor P s
  Reachable-IsFor bound h = record { of_tasks = λ i. tt; on_channel = tt; in_sent = tt }
  Reachable-IsFor (received s request r) h =
      spawned-IsFor P _ s (responses_for_peer request.0 request.1 h.0) (Reachable-IsFor r h.1)
  Reachable-IsFor (relayed s t i e r) h = relayed-IsFor P i s t e (Reachable-IsFor r h)
  Reachable-IsFor (taken s t e r) h = taken-IsFor P s t e (Reachable-IsFor r h)
