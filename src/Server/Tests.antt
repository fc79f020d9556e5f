-- ===== src/Server/Tests.antt =====
-- A server with number packets and peers, and the theorem about its loop applied to it.
use coap_server_rs.Base.{ℕ, ◌+◌, ◌≡◌, refl, none, some, List, [], ◌∷◌, ◌++◌, ok, err}
use coap_server_rs.Transport.{TransportError, io_error, FramedItem}
use coap_server_rs.Server.{
  Event, rx_event, packet_relay, transport, bind, serve, gen_and_send_responses,
}
use coap_server_rs.Server.Loop.{serve_lem}

abbrev fault : TransportError ℕ ℕ
fault = io_error none

abbrev events : List (Event ℕ ℕ ℕ ℕ)
events =
    rx_event (ok (5, 1))
    ∷ rx_event (err (fault, some 2))
    ∷ packet_relay (6, 1)
    ∷ rx_event (ok (7, 2))
    ∷ []

test_responses :
    gen_and_send_responses {Handler = ℕ} {Packet = ℕ} {Endpoint = ℕ}
      (λ h p e. (h + p) ∷ (p ∷ []))
      (10, (5, 1))
    ≡ (15, 1) ∷ (5, 1) ∷ []
unfolding gen_and_send_responses
test_responses = refl

serve_lem_example :
    let spawned : List (ℕ × FramedItem ℕ ℕ) = (100, (5, 1)) ∷ (100, (7, 2)) ∷ [] in
    (serve (bind none) (λ _. 100) events
      ≡ record { spawned = spawned; sent = (6, 1) ∷ []; error = none })
    × (serve (bind none) (λ _. 100) (events ++ rx_event (err (fault, none)) ∷ [])
        ≡ record { spawned = spawned; sent = (6, 1) ∷ []; error = some (transport fault) })
serve_lem_example = serve_lem (bind none) (λ _. 100) events [] fault (tt, (tt, (tt, (tt, tt))))
