-- ===== src/Counter/Tests.antt =====
-- The counter of examples/app_observable.rs at concrete states: it is read and counted by requests,
-- it overflows, and it is observed during a tick, a request and another tick.
use coap_server_rs.Base.{
  ℕ, ◌+◌, true, false, none, some, [], ◌∷◌, ok, returned, panicked, Text, codes, ◌≡◌, refl, arith,
}
use coap_server_rs.Coap.{confirmable, request, response, get, put, changed, content}
use coap_server_rs.Coap.Options.{CoapRequest}
use coap_server_rs.Coap.SampleOptions.{Message, message_coap, message_options}
use coap_server_rs.App.Request.{new_response}
use coap_server_rs.Observers.{Observers, new_holder}
use coap_server_rs.Observers.Numbers.{notify_times}
use coap_server_rs.Counter.{
  CounterState, tick, put as put_event, default_state, increment, change, on_active,
  handle_get_counter, handle_put_counter_inc,
}
use coap_server_rs.Counter.Activity.{emptied, next_states, on_active_lem}

abbrev reads : Message
reads = record {
  id = 7;
  kind = confirmable;
  class = request get;
  observe = none;
  path = codes "counter";
  token = codes "t";
  payload = [];
}

abbrev asks_with : Message → CoapRequest Message ℕ
asks_with m = record { message = m; response = none; source = some 1 }

abbrev digit : ℕ → Text
digit n = (48 + n) ∷ []

abbrev counted : CounterState ℕ
counted = record { counter = 3; observers = new_holder }

get-counter_payload :
    handle_get_counter message_coap message_options digit (λ p. p) (asks_with reads) counted
    ≡ returned (ok (record reads { class = response content; payload = codes "3\n" }))
unfolding handle_get_counter new_response
get-counter_payload = refl

put-counter_counts :
    handle_put_counter_inc message_coap message_options true
      (asks_with (record reads { class = request put }))
      counted
    ≡ returned (
      record { state = record counted { counter = 4 }; told = [] },
      ok (record reads { class = response changed; payload = [] }),
    )
unfolding handle_put_counter_inc new_response change increment new_holder
put-counter_counts = refl

default_state-counter : (default_state {Tx = ℕ}).counter ≡ 0
unfolding default_state
default_state-counter = refl

increment_overflow_checked : increment true 4294967295 ≡ panicked
unfolding increment
increment_overflow_checked = refl

increment_overflow_wraps : increment false 4294967295 ≡ returned 0
unfolding increment
increment_overflow_wraps = refl

abbrev seen : Observers ℕ
seen = record {
  relative_path_key = codes "counter" ∷ [];
  notify_change_tx = 5;
  change_num = record { value = 9 };
}

on_active_lem_example :
    on_active true
      (record { counter = 3; observers = new_holder })
      seen
      (tick ∷ put_event ∷ tick ∷ [])
    ≡ returned (
      record { state = record { counter = 6; observers = emptied }; told = next_states 3 seen },
      notify_times 3 seen,
    )
on_active_lem_example = on_active_lem true (tick ∷ put_event ∷ tick ∷ []) 3 seen (omega arith)
