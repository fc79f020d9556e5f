-- ===== src/Transport/Sink/Run.antt =====
-- Sequences of calls of a sink of Transport.Sink, and how they follow the abstract sink.
use coap_server_rs.Base.{
  none, List, [], ◌∷◌, ◌++◌, Result, ok, err, panicked, Text, ◌≡◌, ◌≢◌, ap, ◌∙◌, All, inl, inr,
}
use coap_server_rs.Transport.{PacketCodec, FramedItem, Polled}
use mathlib.Core.Path.{subst}
use coap_server_rs.ObserveHandler.{to_list}
use coap_server_rs.Transport.Sink.{
  Trace, Trace-order, idle, accept, deliver, SinkAnswer, IsStep, DatagramSink,
}

pub data SinkCall (Packet Endpoint Socket : Type 0) : Type 0 where
  calls_ready calls_flush calls_close : Socket → SinkCall Packet Endpoint Socket
  calls_start_send : FramedItem Packet Endpoint → SinkCall Packet Endpoint Socket

-- What a sequence of calls leaves: the state, the datagrams sent, and the answers of the polls.
pub record Ran (State Endpoint Answer : Type 0) : Type 0 where
  pub state : State
  pub sent : List (Text × Endpoint)
  pub answers : List Answer

module _ (c : PacketCodec) {Endpoint : Type 0} (k : DatagramSink c Endpoint) where
  open k use {
    State, Socket, poll_ready, poll_flush, poll_close, start_send, waiting, is_sound, is_whole,
  }

  abbrev polled :
      Polled State Endpoint (SinkAnswer c)
      → Ran State Endpoint (SinkAnswer c)
      → Ran State Endpoint (SinkAnswer c)
  polled r rest = record {
    state = rest.state;
    sent = r.sent ++ rest.sent;
    answers = r.answer ∷ rest.answers;
  }

  abbrev pub run :
      State → List (SinkCall c.Packet Endpoint Socket) → Ran State Endpoint (SinkAnswer c)
  run s [] = record { state = s; sent = []; answers = [] }
  run s (calls_ready socket ∷ calls) =
      polled (poll_ready s socket) (run (poll_ready s socket).state calls)
  run s (calls_flush socket ∷ calls) =
      polled (poll_flush s socket) (run (poll_flush s socket).state calls)
  run s (calls_close socket ∷ calls) =
      polled (poll_close s socket) (run (poll_close s socket).state calls)
  run s (calls_start_send item ∷ calls) = run (start_send s item).0 calls

  -- The calls keep to the contract of a sink: an item is given only when none waits, as after a poll
  -- that is ready without an error. Each item can be encoded, and a socket takes whole datagrams.
  abbrev pub IsProtocol : State → List (SinkCall c.Packet Endpoint Socket) → Type 0
  IsProtocol s [] = Unit {0}
  IsProtocol s (calls_ready socket ∷ calls) =
      is_whole s socket × IsProtocol (poll_ready s socket).state calls
  IsProtocol s (calls_flush socket ∷ calls) =
      is_whole s socket × IsProtocol (poll_flush s socket).state calls
  IsProtocol s (calls_close socket ∷ calls) =
      is_whole s socket × IsProtocol (poll_close s socket).state calls
  IsProtocol s (calls_start_send item ∷ calls) =
      (waiting s ≡ none)
      × ((bytes : Text) × (c.to_bytes item.0 ≡ ok bytes))
      × IsProtocol (start_send s item).0 calls

  abbrev encoding : Result Text c.MessageError → Endpoint → List (Text × Endpoint)
  encoding (ok bytes) peer = (bytes, peer) ∷ []
  encoding (err e) peer = []

  -- The datagrams of the items that are given.
  abbrev pub given : List (SinkCall c.Packet Endpoint Socket) → List (Text × Endpoint)
  given [] = []
  given (calls_start_send item ∷ calls) = encoding (c.to_bytes item.0) item.1 ++ given calls
  given (_ ∷ calls) = given calls

  -- The datagrams are those that the abstract sink would send, and no poll has panicked.
  abbrev pub Follows : State → List (Text × Endpoint) → Ran State Endpoint (SinkAnswer c) → Type 0
  Follows s g after =
      Trace (waiting s) g after.sent (waiting after.state) × All (λ a. a ≢ panicked) after.answers

  polled-Follows :
      (s : State) (r : Polled State Endpoint (SinkAnswer c)) (g : List (Text × Endpoint))
      (rest : Ran State Endpoint (SinkAnswer c))
      → IsStep c waiting is_sound s r
      → Follows r.state g rest
      → Follows s g (polled r rest)
  polled-Follows s r g rest h (t, q) = elim h.kept_or_sent [
    | inl (n, e) ↦ rw n (subst (λ v. Trace v g rest.sent (waiting rest.state)) e t, (h.calm, q))
    | inr (d, b, n, e) ↦
        rw (b, n)
          (deliver d (subst (λ v. Trace v g rest.sent (waiting rest.state)) e t), (h.calm, q))
  ]

  -- Every run that keeps to the contract is one of the abstract sink: each datagram that is given is
  -- sent once, whole and in order, but for the last, which may still wait; and no call panics.
  pub run-Follows :
      (calls : List (SinkCall c.Packet Endpoint Socket)) (s : State)
      → is_sound s
      → IsProtocol s calls
      → Follows s (given calls) (run s calls)
  run-Follows [] s h p = (idle (waiting s), tt)
  run-Follows (calls_ready socket ∷ calls) s h p =
      let step = k.poll_ready-IsStep s socket h p.0 in
      polled-Follows s _ _ _ step (run-Follows calls _ step.sound p.1)
  run-Follows (calls_flush socket ∷ calls) s h p =
      let step = k.poll_flush-IsStep s socket h p.0 in
      polled-Follows s _ _ _ step (run-Follows calls _ step.sound p.1)
  run-Follows (calls_close socket ∷ calls) s h p =
      let step = k.poll_close-IsStep s socket h p.0 in
      polled-Follows s _ _ _ step (run-Follows calls _ step.sound p.1)
  run-Follows (calls_start_send (packet, peer) ∷ calls) s h (n, (bytes, e), p) =
      let started = k.start_send-waiting s packet bytes peer h n e in
      let after = run (start_send s (packet, peer)).0 calls in
      let rest = run-Follows calls (start_send s (packet, peer)).0 started.0 p in
      rw (n, e)
        (
          accept (bytes, peer)
              (subst (λ v. Trace v (given calls) after.sent (waiting after.state)) started.1
                rest.0),
          rest.1,
        )

  -- From a state in which nothing waits, what is sent and what then waits are what is given.
  pub run_order :
      (calls : List (SinkCall c.Packet Endpoint Socket)) (s : State)
      → is_sound s
      → waiting s ≡ none
      → IsProtocol s calls
      → let after = run s calls in
        Follows s (given calls) after × (after.sent ++ to_list (waiting after.state) ≡ given calls)
  run_order calls s h n p =
      let follows = run-Follows calls s h p in
      (follows, Trace-order follows.0 ∙ ap (λ w. to_list w ++ given calls) n)
