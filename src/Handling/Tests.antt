-- ===== src/Handling/Tests.antt =====
-- resource_handler.rs with a peer that observes "s/x": the handling of its request, the notifications
-- that it gets, and the theorems applied there.
use coap_server_rs.Handling.Sample.{asks, value_now, pair, answers, delivery, acknowledged}
use coap_server_rs.Base.{
  ℕ, true, none, some, List, [], ◌∷◌, ◌++◌, ok, err, codes, ◌≡◌, refl, All, nat_eq, inr,
}
use coap_server_rs.Coap.{reset}
use coap_server_rs.Coap.Options.{CoapRequest}
use coap_server_rs.Coap.SampleOptions.{Message, message_coap, message_options}
use coap_server_rs.Errors.{CoapError, internal}
use coap_server_rs.U24.{U24}
use coap_server_rs.Observers.{initial_sequence, resource_changed}
use coap_server_rs.ObserveHandler.{ObserveHandler, RegistrationKey, new_handler}
use coap_server_rs.Retransmission.{peer_response, SendFailed, reset_received}
use coap_server_rs.Retransmission.Send.{changed}
use coap_server_rs.Handling.{Round, generate_and_assign_response}
use coap_server_rs.Handling.Loop.{
  Delivery, LoopEvent, terminated, notified, left, observe_loop, notification_packet,
  send_notification, synthetic,
}
use coap_server_rs.Handling.Notify.{IsNotification, observe_loop-IsNotification}
use coap_server_rs.Handling.Delivered.{Answers, IsDelivered, IsSentAs, observe_loop_ends}
use coap_server_rs.Handling.Start.{Found, first_response, do_handle, only}
use coap_server_rs.Handling.Laws.{do_handle_error, do_handle_once}

abbrev fails : Round Message ℕ
fails = record { handle = λ p u. err (internal (codes "no")); intercept_response = none }

abbrev refused : Delivery ℕ ℕ ℕ
refused = delivery (changed (peer_response reset) ∷ [])

abbrev change : ℕ → LoopEvent Message ℕ ℕ ℕ
change n = notified (resource_changed (record { value = n })) answers acknowledged

abbrev two_changes : List (LoopEvent Message ℕ ℕ ℕ)
two_changes =
    change 9
    ∷ notified (initial_sequence (record { value = 4 })) answers acknowledged
    ∷ change 11
    ∷ []

observe_loop-IsNotification_example :
    All
      (IsNotification message_coap message_options 7)
      (observe_loop message_coap message_options pair [] two_changes).notifications
observe_loop-IsNotification_example =
    observe_loop-IsNotification message_coap message_options pair [] two_changes 7 refl

change-IsDelivered : (n : ℕ) → IsDelivered message_coap message_options pair [] 7 (change n)
unfolding generate_and_assign_response send_notification notification_packet synthetic
change-IsDelivered n = (
  value_now,
  (record pair { message = record asks { observe = none }; response = some value_now }, refl, refl),
  refl,
  refl,
)

abbrev eleven : U24
eleven = record { value = 11 }

observe_loop_ends_example :
    let loop = observe_loop message_coap message_options pair [] in
    let sent = (loop (change 9 ∷ [])).notifications in
    (loop (change 9 ∷ terminated ∷ two_changes)
      ≡ record { notifications = sent; standing = left (ok tt) })
    × ((error : CoapError)
        → generate_and_assign_response answers (synthetic message_coap message_options pair) []
          ≡ err error
        → loop (change 9 ∷ notified (resource_changed eleven) answers refused ∷ two_changes)
          ≡ record { notifications = sent; standing = left (err error) })
    × ((response : Message) (failed : SendFailed ℕ)
        → Answers message_coap message_options pair [] answers response
        → IsSentAs message_coap message_options pair [] 7 refused response eleven (err failed)
        → loop (change 9 ∷ notified (resource_changed eleven) answers refused ∷ two_changes)
          ≡ record {
            notifications =
                sent
                ++ send_notification message_coap refused
                    (notification_packet message_coap message_options response eleven)
                    7
                  ∷ [];
            standing = left (ok tt);
          })
observe_loop_ends_example =
    observe_loop_ends message_coap message_options pair [] 7 (change 9 ∷ []) two_changes eleven
      answers refused refl (change-IsDelivered 9, tt)

-- The reset is the failure that the loop ends with.
test_refused :
    IsSentAs message_coap message_options pair [] 7 refused value_now eleven (err reset_received)
unfolding send_notification notification_packet
test_refused = refl

abbrev found : Round Message ℕ → Found Message ℕ ℕ ℕ
found round = record {
  observe = some (new_handler (codes "s"));
  outside = record {
    new_watch = 100;
    new_oneshot = 200;
    random = (1, 2, 3);
    borrow = λ _. initial_sequence (record { value = 4 });
  };
  intercept_request = none;
  round = round;
  tx_open = true;
}

abbrev plain : CoapRequest Message ℕ
plain = record pair { message = record asks { observe = none } }

do_handle_once_example :
    do_handle message_coap message_options (found answers) plain [] two_changes
    ≡ record (only message_coap message_options (found answers) (left (ok tt))) {
      responses = value_now ∷ [];
    }
unfolding first_response
do_handle_once_example =
    do_handle_once message_coap message_options (found answers) plain [] two_changes
      (record plain { response = some value_now }) value_now refl refl refl (inr refl)

do_handle_error_example :
    do_handle message_coap message_options (found fails) pair [] two_changes
    ≡ only message_coap message_options (found fails) (left (err (internal (codes "no"))))
unfolding first_response
do_handle_error_example =
    do_handle_error message_coap message_options (found fails) pair [] two_changes
      (internal (codes "no")) refl

abbrev with_response : CoapRequest Message ℕ
with_response = record pair { response = some value_now }

abbrev key : RegistrationKey ℕ
key = record { peer = 7; token = 5 ∷ [] }
