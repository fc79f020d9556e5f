-- ===== src/Transport/Sink.antt =====
-- The sending side of a datagram transport, which coap-server-embassy/src/transport/udp.rs and
-- coap-server-tokio/src/transport/udp_framed_fork.rs each implement: what it promises, as an abstract
-- sink that holds at most one datagram, and the interface by which an implementation is shown to
-- keep the promise.
pub mod Run
use coap_server_rs.Base.{
  ℕ, Option, none, some, List, [], ◌∷◌, ◌++◌, Result, ok, err, Outcome, returned, panicked, Text,
  ◌≡◌, ◌≢◌, refl, sym, ap, ◌∙◌, All, ◌⊎◌,
}
use mathlib.Core.List.{append-nil, append_assoc}
use coap_server_rs.ObserveHandler.{to_list}
use coap_server_rs.Transport.{Poll, ready, pending, PacketCodec, ErrorOf, FramedItem, Polled}

-- The abstract sink: what waits before, the datagrams it is given, those it sends, what waits after.
pub data Trace {Datagram : Type 0}
    : Option Datagram → List Datagram → List Datagram → Option Datagram → Type 0 where
  idle : (w : Option Datagram) → Trace w [] [] w
  accept :
      {given sent : List Datagram} {w : Option Datagram} (d : Datagram)
      → Trace (some d) given sent w
      → Trace none (d ∷ given) sent w
  deliver :
      {given sent : List Datagram} {w : Option Datagram} (d : Datagram)
      → Trace none given sent w
      → Trace (some d) given (d ∷ sent) w

module _ {Datagram : Type 0} where
  -- Nothing is lost, doubled or reordered.
  pub Trace-order :
      {before after : Option Datagram} {given sent : List Datagram}
      → Trace before given sent after
      → sent ++ to_list after ≡ to_list before ++ given
  Trace-order (idle w) = sym (append-nil (to_list w))
  Trace-order (accept d t) = Trace-order t
  Trace-order (deliver d t) = ap (λ l. d ∷ l) (Trace-order t)

abbrev pub SinkAnswer : PacketCodec → Type 0
SinkAnswer c = Outcome (Poll (Result (Unit {0}) (ErrorOf c)))

-- A poll keeps the datagram that waits or sends it, and is not ready without an error while it waits.
pub record IsStep (c : PacketCodec) {State Endpoint : Type 0}
    (waiting : State → Option (Text × Endpoint)) (is_sound : State → Type 0) (s : State)
    (r : Polled State Endpoint (SinkAnswer c)) : Type 0 where
  pub sound : is_sound r.state
  pub kept_or_sent :
      ((r.sent ≡ []) × (waiting r.state ≡ waiting s))
      ⊎ ((d : Text × Endpoint) × (waiting s ≡ some d)
          × (r.sent ≡ d ∷ [])
          × (waiting r.state ≡ none))
  pub calm : r.answer ≢ panicked
  pub drained : r.answer ≡ returned (ready (ok tt)) → waiting r.state ≡ none

-- `waiting` is the datagram that has been taken and not been given to the socket. `is_whole` says
-- that the socket, if it takes the datagram, takes all of it.
pub record DatagramSink (c : PacketCodec) (Endpoint : Type 0) : Type 1 where
  pub State : Type 0
  pub Socket : Type 0
  pub poll_ready : State → Socket → Polled State Endpoint (SinkAnswer c)
  pub poll_flush : State → Socket → Polled State Endpoint (SinkAnswer c)
  pub poll_close : State → Socket → Polled State Endpoint (SinkAnswer c)
  pub start_send : State → FramedItem c.Packet Endpoint → State × Result (Unit {0}) (ErrorOf c)
  pub waiting : State → Option (Text × Endpoint)
  pub is_sound : State → Type 0
  pub is_whole : State → Socket → Type 0
  pub poll_ready-IsStep :
      (s : State) (socket : Socket)
      → is_sound s
      → is_whole s socket
      → IsStep c waiting is_sound s (poll_ready s socket)
  pub poll_flush-IsStep :
      (s : State) (socket : Socket)
      → is_sound s
      → is_whole s socket
      → IsStep c waiting is_sound s (poll_flush s socket)
  pub poll_close-IsStep :
      (s : State) (socket : Socket)
      → is_sound s
      → is_whole s socket
      → IsStep c waiting is_sound s (poll_close s socket)
  pub start_send-waiting :
      (s : State) (packet : c.Packet) (bytes : Text) (peer : Endpoint)
      → is_sound s
      → waiting s ≡ none
      → c.to_bytes packet ≡ ok bytes
      → is_sound (start_send s (packet, peer)).0
        × (waiting (start_send s (packet, peer)).0 ≡ some (bytes, peer))
