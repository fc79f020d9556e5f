-- ===== src/Counter.antt =====
-- examples/app_observable.rs: a counter that can be observed, which uses the holder of observers.rs.
-- Whether an addition that overflows panics is a choice of the build, `overflow_checks`.
pub mod Activity
mod Tests
use coap_server_rs.Base.{
  ℕ, ◌+◌, ◌^◌, Bool, true, false, Option, none, some, List, [], ◌∷◌, ◌++◌, Result, ok, err, Outcome,
  returned, panicked, Text, codes, ltb, if◌then◌else◌,
}
use coap_server_rs.Coap.{Coap}
use coap_server_rs.Coap.Options.{Options, CoapRequest}
use coap_server_rs.Errors.{CoapError}
use coap_server_rs.App.Request.{new_response}
use coap_server_rs.Observers.{
  Observers, ObserversHolder, NotificationState, Attached, new_holder, attach, detach,
  notify_change_all,
}

pub record CounterState (Tx : Type 0) : Type 0 where
  pub counter : ℕ
  pub observers : ObserversHolder Tx

-- A state, and what has been sent on the channels of its handles.
pub record Told (Tx : Type 0) : Type 0 where
  pub state : CounterState Tx
  pub told : List (Tx × NotificationState)

-- `*counter += 1` on a `u32`.
unfoldable pub increment : Bool → ℕ → Outcome ℕ
increment overflow_checks n =
    if ltb (n + 1) (2 ^ 32)
    then returned (n + 1)
    else if overflow_checks
    then panicked
    else returned 0

module _ {Tx : Type 0} where
  unfoldable pub default_state : CounterState Tx
  unfolding new_holder
  default_state = record { counter = 0; observers = new_holder }

  abbrev pub notify_after : CounterState Tx → Outcome ℕ → Outcome (Told Tx)
  notify_after s panicked = panicked
  notify_after s (returned n) =
      let notified = notify_change_all s.observers in
      returned
        (record { state = record { counter = n; observers = notified.0 }; told = notified.1 })

  -- The counter changes and its observers are told, by a tick or a request.
  unfoldable pub change : Bool → CounterState Tx → Outcome (Told Tx)
  unfolding increment notify_change_all
  change overflow_checks s = notify_after s (increment overflow_checks s.counter)

-- What happens while a path is observed.
pub data Event : Type 0 where
  tick put : Event

module _ {Tx : Type 0} where
  abbrev also_told : List (Tx × NotificationState) → Outcome (Told Tx) → Outcome (Told Tx)
  also_told before panicked = panicked
  also_told before (returned r) = returned (record r { told = before ++ r.told })

  -- A tick that panics ends the task that ticks, and then on_active panics when it tells it to stop.
  unfoldable pub run : Bool → CounterState Tx → List Event → Outcome (Told Tx)
  unfolding change
  run overflow_checks s [] = returned (record { state = s; told = [] })
  run overflow_checks s (tick ∷ events) = elim (change overflow_checks s) [
    | panicked ↦ panicked
    | returned r ↦ also_told r.told (run overflow_checks r.state events)
  ]
  run overflow_checks s (put ∷ events) = elim (change overflow_checks s) [
    | panicked ↦ run overflow_checks s events
    | returned r ↦ also_told r.told (run overflow_checks r.state events)
  ]

  abbrev pub detached :
      List (Tx × NotificationState)
      → ℕ
      → Outcome (ObserversHolder Tx × Observers Tx)
      → Outcome (Told Tx × Observers Tx)
  detached told counter panicked = panicked
  detached told counter (returned (holder, observers)) =
      returned (
        record { state = record { counter = counter; observers = holder }; told = told },
        observers,
      )

  abbrev pub detach_after : Attached → Outcome (Told Tx) → Outcome (Told Tx × Observers Tx)
  detach_after attached panicked = panicked
  detach_after attached (returned r) =
      detached r.told r.state.counter (detach r.state.observers attached)

  -- `on_active` of the resource, with the events until nothing observes the path any more.
  unfoldable pub on_active :
      Bool → CounterState Tx → Observers Tx → List Event → Outcome (Told Tx × Observers Tx)
  unfolding attach detach run
  on_active overflow_checks s observers events =
      let a = attach s.observers observers in
      detach_after a.1 (run overflow_checks (record s { observers = a.0 }) events)

module _ (c : Coap) (o : Options c) where
  open c use {Packet}
  open o use {set_payload}

  abbrev with_count : Text → (Packet → Packet) → Outcome Packet → Outcome (Result Packet CoapError)
  with_count count set_text_plain panicked = panicked
  with_count count set_text_plain (returned response) =
      returned (ok (set_text_plain (set_payload (count ++ codes "\n") response)))

module _ (c : Coap) {Tx : Type 0} where
  open c use {Packet}

  abbrev with_response : Told Tx → Outcome Packet → Outcome (Told Tx × Result Packet CoapError)
  with_response r panicked = panicked
  with_response r (returned response) = returned (r, ok response)

module _ (c : Coap) (o : Options c) {Endpoint Tx : Type 0} where
  open c use {Packet}

  -- `to_text` is the decimal text of a number, `set_text_plain` sets the content format.
  unfoldable pub handle_get_counter :
      (ℕ → Text)
      → (Packet → Packet)
      → CoapRequest Packet Endpoint
      → CounterState Tx
      → Outcome (Result Packet CoapError)
  unfolding new_response
  handle_get_counter to_text set_text_plain request s =
      with_count c o (to_text s.counter) set_text_plain (new_response c o request)

  unfoldable pub handle_put_counter_inc :
      Bool
      → CoapRequest Packet Endpoint
      → CounterState Tx
      → Outcome (Told Tx × Result Packet CoapError)
  unfolding change new_response
  handle_put_counter_inc overflow_checks request s = elim (change overflow_checks s) [
    | panicked ↦ panicked
    | returned r ↦ with_response c r (new_response c o request)
  ]
