-- ===== src/Handling/Notify.antt =====
-- The notifications that the loop of `do_handle` sends, and what ends it.
use coap_server_rs.Base.{
  none, some, List, [], ◌∷◌, ok, err, PartialEq, Text, ◌≡◌, ◌≢◌, refl, sym, ◌∙◌, ◌⊎◌, inl, inr, All,
  Option-cases, Result-cases,
}
use coap_server_rs.Coap.{Coap, confirmable}
use coap_server_rs.Coap.Options.{Options, CoapRequest}
use coap_server_rs.U24.{U24, to_u32}
use coap_server_rs.Observers.{initial_sequence, resource_changed}
use coap_server_rs.Retransmission.Manager.{send_reliably}
use coap_server_rs.Retransmission.Send.{Progress, done, pending, overflow_panic}
use coap_server_rs.Retransmission.{SendFailed}
use coap_server_rs.Retransmission.Send.Attempts.{into_future_bounds}
use coap_server_rs.Handling.{generate_and_assign_response}
use coap_server_rs.Handling.Loop.{
  LoopEvent, terminated, notified, Notification, Delivery, notification_packet, send_notification,
  synthetic, observe_loop,
}

module _ {Endpoint : Type 0} where
  pub Progress-cases :
      (p : Progress Endpoint)
      → (p ≡ done (ok tt))
        ⊎ ((e : SendFailed Endpoint) × (p ≡ done (err e)))
        ⊎ (p ≡ pending)
        ⊎ (p ≡ overflow_panic)
  Progress-cases (done (ok u)) = inl refl
  Progress-cases (done (err e)) = inr (inl (e, refl))
  Progress-cases pending = inr (inr (inl refl))
  Progress-cases overflow_panic = inr (inr (inr refl))

module _ (c : Coap) (o : Options c) where
  open c use {Packet, set_type}
  open o use {get_observe_value, set_observe_value, get_observe_value-set_observe_value}

  notification_packet_value :
      (response : Packet) (n : U24) → get_observe_value (notification_packet c o response n) ≢ none
  unfolding notification_packet
  notification_packet_value response n =
      elim (Option-cases (get_observe_value (set_type confirmable response))) [
        | inl e ↦ rw e (λ q.
            let w =
              get_observe_value-set_observe_value (to_u32 n) (set_type confirmable response) in
            cc)
        | inr (v, e) ↦ rw e (λ q. cc)
      ]

module _ (c : Coap) (o : Options c) {Endpoint Tx F : Type 0} ⦃e : PartialEq Endpoint⦄ where
  open c use {Packet, get_type, set_type, set_message_id, get_type-set_type}
  open o use {
    get_observe_value, set_observe_value, get_observe_value-set_observe_value,
    get_observe_value-set_type, get_observe_value-set_message_id,
  }

  -- Sent to the peer, confirmable and with an Observe value; all that is transmitted is this packet.
  abbrev pub IsNotification : Endpoint → Notification Packet Endpoint Tx F → Type 0
  IsNotification peer n =
      (n.started.send.peer ≡ peer)
      × (get_type n.started.send.packet ≡ confirmable)
      × (get_observe_value n.started.send.packet ≢ none)
      × All (λ p. p ≡ n.started.send.packet) n.run.transmissions

  pub send_notification-value :
      (d : Delivery Endpoint Tx F) (packet : Packet) (peer : Endpoint)
      → get_observe_value (send_notification c d packet peer).started.send.packet
        ≡ get_observe_value packet
  unfolding send_notification send_reliably
  send_notification-value d packet peer =
      get_observe_value-set_type _ _ ∙ get_observe_value-set_message_id _ _

  send_notification-IsNotification :
      (d : Delivery Endpoint Tx F) (response : Packet) (n : U24) (peer : Endpoint)
      → IsNotification peer (send_notification c d (notification_packet c o response n) peer)
  unfolding send_notification send_reliably
  send_notification-IsNotification d response n peer =
      let packet = notification_packet c o response n in
      (
        refl,
        get_type-set_type _ _,
        λ q.
            notification_packet_value c o response n
              (sym (send_notification-value d packet peer) ∙ q),
        (into_future_bounds (send_reliably c d.has_receiver d.manager packet peer d.reply_tx).send
            d.first_timeout d.accepts d.wakes).1,
      )

  -- Every notification goes to the peer of the request, is confirmable and has an Observe value, and
  -- nothing but it is transmitted, also when it is sent again.
  pub observe_loop-IsNotification :
      (initial_pair : CoapRequest Packet Endpoint) (unmatched : List Text)
      (events : List (LoopEvent Packet Endpoint Tx F)) (peer : Endpoint)
      → initial_pair.source ≡ some peer
      → All (IsNotification peer) (observe_loop c o initial_pair unmatched events).notifications
  unfolding observe_loop
  observe_loop-IsNotification pair unmatched [] peer s = tt
  observe_loop-IsNotification pair unmatched (terminated ∷ later) peer s = tt
  observe_loop-IsNotification pair unmatched (notified (initial_sequence _) round d ∷ later) peer
        s =
      observe_loop-IsNotification pair unmatched later peer s
  observe_loop-IsNotification pair unmatched (notified (resource_changed n) round d ∷ later) peer
        s =
      let rest = observe_loop-IsNotification pair unmatched later peer s in
      elim (Result-cases (generate_and_assign_response round (synthetic c o pair) unmatched)) [
        | inr (error, g) ↦ rw (observe_loop, g) tt
        | inl (current, g) ↦ elim (Option-cases current.response) [
          | inl r ↦ rw (observe_loop, g, r) tt
          | inr (response, r) ↦
              let sound = send_notification-IsNotification d response n peer in
              elim (Progress-cases
                (send_notification c d (notification_packet c o response n) peer).run.progress) [
                  | inl p ↦ rw (observe_loop, g, r, s, p) (sound, rest)
                  | inr (inl (f, p)) ↦ rw (observe_loop, g, r, s, p) (sound, tt)
                  | inr (inr (inl p)) ↦ rw (observe_loop, g, r, s, p) (sound, tt)
                  | inr (inr (inr p)) ↦ rw (observe_loop, g, r, s, p) (sound, tt)
                ]
        ]
      ]
