-- ===== src/Server/Loop.antt =====
-- How the loop of server.rs treats its events.
use coap_server_rs.Base.{
  ℕ, Option, none, some, List, [], ◌∷◌, ◌++◌, map, ok, err, All, ◌≡◌, refl, ap, sym, ◌∙◌,
}
use mathlib.Core.List.{append-nil}
use coap_server_rs.Transport.{TransportError, FramedItem}
use coap_server_rs.Server.{
  CoapServer, Event, rx_event, packet_relay, transport, serve, serve_loop, handle_rx_event,
  do_handle_request,
}

module _ {Packet Endpoint IoErr MessageError : Type 0} where
  -- Any event but an error of the transport that concerns no peer.
  abbrev pub IsHarmless : Event Packet Endpoint IoErr MessageError → Type 0
  IsHarmless (rx_event (err (e, none))) = ⊥
  IsHarmless _ = Unit {0}

  -- The packets that come in, and those that go out.
  abbrev pub received :
      List (Event Packet Endpoint IoErr MessageError) → List (FramedItem Packet Endpoint)
  received [] = []
  received (rx_event (ok item) ∷ events) = item ∷ received events
  received (_ ∷ events) = received events

  abbrev pub relayed :
      List (Event Packet Endpoint IoErr MessageError) → List (FramedItem Packet Endpoint)
  relayed [] = []
  relayed (packet_relay item ∷ events) = item ∷ relayed events
  relayed (_ ∷ events) = relayed events

  module _ {Handler : Type 0} where
    serve_loop_harmless :
        (mtu : Option ℕ) (h : Handler)
        (events later : List (Event Packet Endpoint IoErr MessageError))
        → All IsHarmless events
        → let self : CoapServer Handler = record { mtu = mtu; handler = some h } in
          let rest = serve_loop self later in
          serve_loop self (events ++ later) ≡ record {
            spawned = map (λ item. (h, item)) (received events) ++ rest.spawned;
            sent = relayed events ++ rest.sent;
            error = rest.error;
          }
    unfolding serve_loop handle_rx_event do_handle_request
    serve_loop_harmless mtu h [] later k = refl
    serve_loop_harmless mtu h (packet_relay item ∷ events) later k =
        rw (serve_loop_harmless mtu h events later k.1) refl
    serve_loop_harmless mtu h (rx_event (ok item) ∷ events) later k =
        rw (serve_loop_harmless mtu h events later k.1) refl
    serve_loop_harmless mtu h (rx_event (err (e, some peer)) ∷ events) later k =
        rw (serve_loop_harmless mtu h events later k.1) refl
    serve_loop_harmless mtu h (rx_event (err (e, none)) ∷ events) later k = absurd k.0

    -- Until an error of the transport without a peer comes, the server runs on: it spawns one task
    -- for each packet that comes in, with the handler that was made for the transport's MTU, and
    -- gives each relayed packet to the transport, both in their order; errors that concern a peer
    -- change nothing. Such an error ends it at once, with that error, whatever follows.
    pub serve_lem :
        (self : CoapServer Handler) (into_handler : Option ℕ → Handler)
        (events later : List (Event Packet Endpoint IoErr MessageError))
        (e : TransportError IoErr MessageError)
        → All IsHarmless events
        → let spawned : List (Handler × FramedItem Packet Endpoint) =
            map (λ item. (into_handler self.mtu, item)) (received events) in
          (serve self into_handler events
            ≡ record { spawned = spawned; sent = relayed events; error = none })
          × (serve self into_handler (events ++ rx_event (err (e, none)) ∷ later)
              ≡ record { spawned = spawned; sent = relayed events; error = some (transport e) })
    unfolding serve serve_loop handle_rx_event do_handle_request
    serve_lem self into_handler events later e k =
        let h = into_handler self.mtu in
        let tasks : List (Handler × FramedItem Packet Endpoint) =
          map (λ item. (h, item)) (received events) in
        let alone = serve_loop_harmless self.mtu h events [] k in
        let ended = serve_loop_harmless self.mtu h events (rx_event (err (e, none)) ∷ later) k in
        (
          ap (serve_loop (record { mtu = self.mtu; handler = some h })) (sym (append-nil events))
              ∙ alone
              ∙ rw (append-nil tasks, append-nil (relayed events)) refl,
          ended ∙ rw (append-nil tasks, append-nil (relayed events)) refl,
        )
