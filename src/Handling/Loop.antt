-- ===== src/Handling/Loop.antt =====
-- The loop of `do_handle` in resource_handler.rs, over the branches in which its select completes.
use coap_server_rs.Base.{
  ℕ, Bool, Option, none, some, List, [], ◌∷◌, Result, ok, err, PartialEq, Text,
}
use coap_server_rs.Coap.{Coap, confirmable}
use coap_server_rs.Coap.Options.{Options, CoapRequest}
use coap_server_rs.Errors.{CoapError}
use coap_server_rs.U24.{U24, to_u32}
use coap_server_rs.Observers.{NotificationState, initial_sequence, resource_changed}
use coap_server_rs.Retransmission.Manager.{RetransmissionManager, Started, send_reliably}
use coap_server_rs.Retransmission.Send.{Wake, Run, done, pending, overflow_panic, into_future}
use coap_server_rs.Handling.{Round, generate_and_assign_response}

-- What the send of a notification finds: the manager behind its lock, which channels have a receiver,
-- the channel that it opens, and what the runtime decides for the future that it awaits.
pub record Delivery (Endpoint Tx F : Type 0) : Type 0 where
  pub manager : RetransmissionManager Endpoint Tx F
  pub has_receiver : Tx → Bool
  pub reply_tx : Tx
  pub first_timeout : ℕ
  pub accepts : ℕ → Bool
  pub wakes : List (Wake Endpoint)

-- A branch of the select: the registration ends, or the watch channel has changed, or has no sender
-- any more, and holds that state. The round and the delivery are for the notification, if one is due.
pub data LoopEvent (Packet Endpoint Tx F : Type 0) : Type 0 where
  terminated : LoopEvent Packet Endpoint Tx F
  notified :
      NotificationState
      → Round Packet Endpoint
      → Delivery Endpoint Tx F
      → LoopEvent Packet Endpoint Tx F

-- A notification: what `send_reliably` did, and the run of its future.
pub record Notification (Packet Endpoint Tx F : Type 0) : Type 0 where
  pub started : Started Endpoint Tx F Packet
  pub run : Run Endpoint Packet

-- Where the handling of the request stands; `unwound` is a panic of its task.
pub data Standing : Type 0 where
  observing : Standing
  left : Result (Unit {0}) CoapError → Standing
  unwound : Standing

pub record Observed (Packet Endpoint Tx F : Type 0) : Type 0 where
  pub notifications : List (Notification Packet Endpoint Tx F)
  pub standing : Standing

module _ {Packet Endpoint Tx F : Type 0} where
  abbrev pub stopped : Standing → Observed Packet Endpoint Tx F
  stopped s = record { notifications = []; standing = s }

  abbrev pub after :
      Notification Packet Endpoint Tx F
      → Observed Packet Endpoint Tx F
      → Observed Packet Endpoint Tx F
  after n rest = record { notifications = n ∷ rest.notifications; standing = rest.standing }

module _ (c : Coap) (o : Options c) where
  open c use {Packet, set_type}
  open o use {get_observe_value, set_observe_value, clear_observe}

  abbrev with_sequence : U24 → Packet → Option (Result ℕ Text) → Packet
  with_sequence change_num response (some _) = response
  with_sequence change_num response none = set_observe_value (to_u32 change_num) response

  -- The response of a round as it is sent: confirmable, and with the number of the change, unless
  -- the handler has set a number.
  unfoldable pub notification_packet : Packet → U24 → Packet
  unfolding to_u32
  notification_packet response change_num =
      let confirmed = set_type confirmable response in
      with_sequence change_num confirmed (get_observe_value confirmed)

  -- The request of a round is the first one without its Observe option.
  unfoldable pub synthetic :
      {Endpoint : Type 0} → CoapRequest Packet Endpoint → CoapRequest Packet Endpoint
  synthetic initial_pair = record initial_pair { message = clear_observe initial_pair.message }

module _ (c : Coap) {Endpoint Tx F : Type 0} ⦃e : PartialEq Endpoint⦄ where
  open c use {Packet}

  unfoldable pub send_notification :
      Delivery Endpoint Tx F → Packet → Endpoint → Notification Packet Endpoint Tx F
  unfolding send_reliably into_future
  send_notification d packet peer =
      let started = send_reliably c d.has_receiver d.manager packet peer d.reply_tx in
      record { started = started; run = into_future started.send d.first_timeout d.accepts d.wakes }

module _ (c : Coap) (o : Options c) {Endpoint Tx F : Type 0} ⦃e : PartialEq Endpoint⦄ where
  open c use {Packet}

  unfoldable pub observe_loop :
      CoapRequest Packet Endpoint
      → List Text
      → List (LoopEvent Packet Endpoint Tx F)
      → Observed Packet Endpoint Tx F
  unfolding generate_and_assign_response notification_packet send_notification synthetic
  observe_loop initial_pair unmatched [] = stopped observing
  observe_loop initial_pair unmatched (terminated ∷ later) = stopped (left (ok tt))
  observe_loop initial_pair unmatched (notified (initial_sequence _) round d ∷ later) =
      observe_loop initial_pair unmatched later
  observe_loop initial_pair unmatched (notified (resource_changed change_num) round d ∷ later) =
      elim (generate_and_assign_response round (synthetic c o initial_pair) unmatched) [
        | err e ↦ stopped (left (err e))
        | ok current_pair ↦ elim current_pair.response [
          | none ↦ stopped unwound
          | some response ↦ elim initial_pair.source [
            | none ↦ stopped unwound
            | some peer ↦
                let n = send_notification c d (notification_packet c o response change_num) peer in
                elim n.run.progress [
                  | done (ok _) ↦ after n (observe_loop initial_pair unmatched later)
                  | done (err _) ↦ after n (stopped (left (ok tt)))
                  | pending ↦ after n (stopped observing)
                  | overflow_panic ↦ after n (stopped unwound)
                ]
          ]
        ]
      ]
