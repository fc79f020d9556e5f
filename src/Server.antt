-- ===== src/Server.antt =====
-- coap-server/src/server.rs: the loop that takes items from the transport and from the relay of the
-- handlers' packets. `Handler` is the type of packet handlers; what the transport yields is `Packet`s
-- with an `Endpoint`, or errors.
pub mod Loop
pub mod Relay
mod Tests
mod RelayTests
use coap_server_rs.Base.{
  ℕ, Bool, true, false, Option, none, some, List, [], ◌∷◌, ◌++◌, map, Result, ok, err, Text, codes,
}
use coap_server_rs.Transport.{TransportError, FramedItem, FramedReadError}

pub data FatalServerError (IoErr MessageError : Type 0) : Type 0 where
  internal_error : Text → FatalServerError IoErr MessageError
  transport : TransportError IoErr MessageError → FatalServerError IoErr MessageError

-- The MTU of the binding, and the handler once `serve` has made it.
pub record CoapServer (Handler : Type 0) : Type 0 where
  pub mtu : Option ℕ
  pub handler : Option Handler

-- What a branch of the `select!` takes: an item of the transport, or a packet of the relay.
pub data Event (Packet Endpoint IoErr MessageError : Type 0) : Type 0 where
  rx_event :
      Result
        (FramedItem Packet Endpoint)
        (FramedReadError (TransportError IoErr MessageError) Endpoint)
      → Event Packet Endpoint IoErr MessageError
  packet_relay : FramedItem Packet Endpoint → Event Packet Endpoint IoErr MessageError

-- The tasks that are spawned, each with its handler, packet and peer; the items given to the
-- transport; and the error that ends the loop, if one does.
pub record Served (Handler Packet Endpoint IoErr MessageError : Type 0) : Type 0 where
  pub spawned : List (Handler × FramedItem Packet Endpoint)
  pub sent : List (FramedItem Packet Endpoint)
  pub error : Option (FatalServerError IoErr MessageError)

-- `bind`, for a transport whose binding has the MTU; the relay's channel is in the events.
unfoldable pub bind : {Handler : Type 0} → Option ℕ → CoapServer Handler
bind mtu = record { mtu = mtu; handler = none }

module _ {Handler Packet Endpoint IoErr MessageError : Type 0} where
  unfoldable pub do_handle_request :
      CoapServer Handler
      → FramedItem Packet Endpoint
      → Result (Handler × FramedItem Packet Endpoint) (FatalServerError IoErr MessageError)
  do_handle_request self item = elim self.handler [
    | none ↦ err (internal_error (codes "handler not set"))
    | some h ↦ ok (h, item)
  ]

  abbrev spawn :
      Result (Handler × FramedItem Packet Endpoint) (FatalServerError IoErr MessageError)
      → Result (List (Handler × FramedItem Packet Endpoint)) (FatalServerError IoErr MessageError)
  spawn (ok task) = ok (task ∷ [])
  spawn (err e) = err e

  -- The tasks that the event spawns.
  unfoldable pub handle_rx_event :
      CoapServer Handler
      → Result
          (FramedItem Packet Endpoint)
          (FramedReadError (TransportError IoErr MessageError) Endpoint)
      → Result (List (Handler × FramedItem Packet Endpoint)) (FatalServerError IoErr MessageError)
  unfolding do_handle_request
  handle_rx_event self (ok item) = spawn (do_handle_request self item)
  handle_rx_event self (err (transport_err, none)) = err (transport transport_err)
  handle_rx_event self (err (transport_err, some peer)) = ok []

  abbrev also_spawned :
      List (Handler × FramedItem Packet Endpoint)
      → Served Handler Packet Endpoint IoErr MessageError
      → Served Handler Packet Endpoint IoErr MessageError
  also_spawned tasks s = record s { spawned = tasks ++ s.spawned }

  -- The loop, for the events that come one after the other; an error of the transport on an item of
  -- the relay is only logged.
  unfoldable pub serve_loop :
      CoapServer Handler
      → List (Event Packet Endpoint IoErr MessageError)
      → Served Handler Packet Endpoint IoErr MessageError
  unfolding handle_rx_event
  serve_loop self [] = record { spawned = []; sent = []; error = none }
  serve_loop self (packet_relay item ∷ events) =
      let rest = serve_loop self events in record rest { sent = item ∷ rest.sent }
  serve_loop self (rx_event result ∷ events) = elim (handle_rx_event self result) [
    | ok tasks ↦ also_spawned tasks (serve_loop self events)
    | err e ↦ record { spawned = []; sent = []; error = some e }
  ]

  unfoldable pub serve :
      CoapServer Handler
      → (Option ℕ → Handler)
      → List (Event Packet Endpoint IoErr MessageError)
      → Served Handler Packet Endpoint IoErr MessageError
  unfolding serve_loop
  serve self into_handler events =
      serve_loop (record self { handler = some (into_handler self.mtu) }) events

-- A spawned task relays each packet of the handler's stream with the peer of the request.
unfoldable pub gen_and_send_responses :
    {Handler Packet Endpoint : Type 0}
    → (Handler → Packet → Endpoint → List Packet)
    → Handler × FramedItem Packet Endpoint
    → List (FramedItem Packet Endpoint)
gen_and_send_responses handle (h, (packet, peer)) = map (λ p. (p, peer)) (handle h packet peer)
