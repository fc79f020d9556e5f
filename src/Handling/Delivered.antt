-- ===== src/Handling/Delivered.antt =====
-- Notifications that are all acknowledged: which numbers they have, and what ends the loop after them.
use coap_server_rs.Base.{
  none, some, List, [], ◌∷◌, ◌++◌, Result, ok, err, PartialEq, Text, ◌≡◌, refl, ◌∙◌, All,
}
use coap_server_rs.Coap.{Coap}
use coap_server_rs.Coap.Options.{Options, CoapRequest}
use coap_server_rs.Errors.{CoapError}
use coap_server_rs.U24.{U24}
use coap_server_rs.Observers.{initial_sequence, resource_changed}
use coap_server_rs.Retransmission.Send.{done}
use coap_server_rs.Retransmission.{SendFailed}
use coap_server_rs.Handling.{Round, generate_and_assign_response}
use coap_server_rs.Handling.Loop.{
  LoopEvent, terminated, notified, Observed, left, Delivery, notification_packet, send_notification,
  synthetic, observe_loop,
}
use mathlib.Core.List.{append-nil}

-- The numbers of the changes among the events, in their order.
abbrev pub changes :
    {Packet Endpoint Tx F : Type 0} → List (LoopEvent Packet Endpoint Tx F) → List U24
changes [] = []
changes (notified (resource_changed n) round d ∷ events) = n ∷ changes events
changes (_ ∷ events) = changes events

-- The round gives a response for a change.
abbrev pub Answers :
    (c : Coap) (o : Options c) {Endpoint : Type 0}
    → CoapRequest c.Packet Endpoint
    → List Text
    → Round c.Packet Endpoint
    → c.Packet
    → Type 0
Answers c o {Endpoint} initial_pair unmatched round response =
    (current : CoapRequest c.Packet Endpoint) × (generate_and_assign_response round
        (synthetic c o initial_pair) unmatched
      ≡ ok current)
    × (current.response ≡ some response)

module _ (c : Coap) (o : Options c) {Endpoint Tx F : Type 0} ⦃e : PartialEq Endpoint⦄
    (initial_pair : CoapRequest c.Packet Endpoint) (unmatched : List Text) (peer : Endpoint) where
  open c use {Packet}
  open o use {get_observe_value}

  -- The future of the notification's send ends so.
  abbrev pub IsSentAs :
      Delivery Endpoint Tx F → Packet → U24 → Result (Unit {0}) (SendFailed Endpoint) → Type 0
  IsSentAs d response n result =
      (send_notification c d (notification_packet c o response n) peer).run.progress ≡ done result

  -- No end of the registration; a change is answered without a number of its own, and the
  -- notification is acknowledged.
  abbrev pub IsDelivered : LoopEvent Packet Endpoint Tx F → Type 0
  IsDelivered terminated = ⊥
  IsDelivered (notified (initial_sequence _) round d) = Unit {0}
  IsDelivered (notified (resource_changed n) round d) =
      (response : Packet) × Answers c o initial_pair unmatched round response
      × (get_observe_value response ≡ none)
      × IsSentAs d response n (ok tt)

  abbrev loop : List (LoopEvent Packet Endpoint Tx F) → Observed Packet Endpoint Tx F
  loop = observe_loop c o initial_pair unmatched

  observe_loop-append :
      (events later : List (LoopEvent Packet Endpoint Tx F))
      → initial_pair.source ≡ some peer
      → All IsDelivered events
      → loop (events ++ later) ≡ record {
        notifications = (loop events).notifications ++ (loop later).notifications;
        standing = (loop later).standing;
      }
  unfolding observe_loop
  observe_loop-append [] later s h = refl
  observe_loop-append (notified (initial_sequence _) round d ∷ events) later s h =
      observe_loop-append events later s h.1
  observe_loop-append (notified (resource_changed n) round d ∷ events) later s
        ((response, (current, g, r), v, p), h) =
      rw (observe_loop, g, r, s, p) (rw (observe_loop-append events later s h) refl)
  observe_loop-append (terminated ∷ events) later s h = absurd h.0

  -- What ends the loop after such notifications, whatever comes later: the end of the registration;
  -- an error of the handler, which is the error of the request and sends nothing; and a notification
  -- that fails, by a reset or by silence, after which there is no other.
  pub observe_loop_ends :
      (events later : List (LoopEvent Packet Endpoint Tx F)) (n : U24)
      (round : Round Packet Endpoint) (d : Delivery Endpoint Tx F)
      → initial_pair.source ≡ some peer
      → All IsDelivered events
      → let sent = (loop events).notifications in
        (loop (events ++ terminated ∷ later)
          ≡ record { notifications = sent; standing = left (ok tt) })
        × ((error : CoapError)
            → generate_and_assign_response round (synthetic c o initial_pair) unmatched ≡ err error
            → loop (events ++ notified (resource_changed n) round d ∷ later)
              ≡ record { notifications = sent; standing = left (err error) })
        × ((response : Packet) (failed : SendFailed Endpoint)
            → Answers c o initial_pair unmatched round response
            → IsSentAs d response n (err failed)
            → loop (events ++ notified (resource_changed n) round d ∷ later) ≡ record {
              notifications =
                  sent ++ send_notification c d (notification_packet c o response n) peer ∷ [];
              standing = left (ok tt);
            })
  unfolding observe_loop
  observe_loop_ends events later n round d s h =
      let event = notified (resource_changed n) round d in
      (
        observe_loop-append events (terminated ∷ later) s h
            ∙ rw (append-nil (loop events).notifications) refl,
        λ error g.
            observe_loop-append events (event ∷ later) s h
            ∙ rw (observe_loop, g, append-nil (loop events).notifications) refl,
        λ response failed (current, g, r) p.
            observe_loop-append events (event ∷ later) s h ∙ rw (observe_loop, g, r, s, p) refl,
      )
