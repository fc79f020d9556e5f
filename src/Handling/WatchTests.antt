-- ===== src/Handling/WatchTests.antt =====
-- A resource that tells three changes, of which the loop of resource_handler.rs misses the second.
use coap_server_rs.Handling.Sample.{pair, answers, acknowledged}
use coap_server_rs.Base.{
  ℕ, Bool, true, false, Option, none, some, List, [], ◌∷◌, map, ok, ◌≡◌, refl, nat_eq,
}
use coap_server_rs.Coap.SampleOptions.{Message, message_coap, message_options}
use coap_server_rs.U24.{U24, to_u32}
use coap_server_rs.Observers.{Observers, NotificationState, initial_sequence}
use coap_server_rs.Handling.{generate_and_assign_response}
use coap_server_rs.Handling.Loop.{observe_loop, notification_packet, send_notification, synthetic}
use coap_server_rs.Handling.Watch.{Watch, Turn, tells, selects, watch}

abbrev changed_of :
    Bool → NotificationState → Option (NotificationState × (NotificationState × Bool))
changed_of true v = some (v, (v, false))
changed_of false v = none

-- The value that the channel holds, and whether it is new to the receiver.
abbrev value_watch : Watch
value_watch = record {
  Channel = NotificationState × Bool;
  subscribe = λ v. (v, false);
  send = λ v channel. (v, true);
  changed = λ channel. changed_of channel.1 channel.0;
  changed-subscribe = λ v. refl;
  changed-send = λ v channel. ((v, false), refl, refl);
}

abbrev sees : Turn Message ℕ ℕ ℕ
sees = selects answers acknowledged

abbrev turns : List (Turn Message ℕ ℕ ℕ)
turns = tells ∷ sees ∷ tells ∷ tells ∷ sees ∷ sees ∷ []

abbrev observers : Observers ℕ
observers = record {
  relative_path_key = [];
  notify_change_tx = 1;
  change_num = record { value = 4 };
}

abbrev start : NotificationState
start = initial_sequence (record { value = 4 })

-- The second change is passed over.
test_numbers :
    map
      (λ n. message_options.get_observe_value n.started.send.packet)
      (observe_loop message_coap message_options pair []
        (watch value_watch observers (start, false) turns).events).notifications
    ≡ some (ok 5) ∷ some (ok 7) ∷ []
unfolding watch observe_loop generate_and_assign_response send_notification notification_packet
    synthetic to_u32
test_numbers = refl
