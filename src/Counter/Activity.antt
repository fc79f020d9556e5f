-- ===== src/Counter/Activity.antt =====
-- The time in which the counter of examples/app_observable.rs is observed on one path.
use coap_server_rs.Base.{
  ℕ, zero, suc, ◌+◌, ◌^◌, ◌<◌, Bool, List, [], ◌∷◌, length, returned, list_eq, nat_eq, ◌==◌,
  ==-refl, ◌≡◌, refl, sym, ap, ◌∙◌, arith, get, insert, remove, Bool-cases, none, some, inl, inr,
}
use coap_server_rs.PathMatcher.{
  insert as matcher_insert, values as matcher_values, new_empty, lookup_exact,
}
use coap_server_rs.Observers.{
  Observers, ObserversHolder, NotificationState, notify_change, notify_change_all, notify_arcs,
  attach, detach, new_holder, Attached,
}
use coap_server_rs.Observers.Notify.{IsHolder}
use coap_server_rs.Observers.Detach.{detach_attached}
use coap_server_rs.Observers.Numbers.{notify_times}
use coap_server_rs.Counter.{
  CounterState, Event, tick, put, increment, change, notify_after, run, detach_after, detached,
  on_active,
}

increment_below :
    (overflow_checks : Bool) (n : ℕ)
    → n + 1 < 2 ^ 32
    → increment overflow_checks n ≡ returned (n + 1)
unfolding increment
increment_below overflow_checks n h = ground arith

module _ {Tx : Type 0} where
  -- The only handle of a holder.
  abbrev alone : Observers Tx → ObserversHolder Tx
  alone o = record {
    inner = record { map = (o.relative_path_key, 0) ∷ [] };
    arcs = (0, o) ∷ [];
    next_arc = 1;
  }

  -- The numbers of the next changes of a handle, as they are sent.
  abbrev pub next_states : ℕ → Observers Tx → List (Tx × NotificationState)
  next_states zero o = []
  next_states (suc n) o =
      let after = notify_change o in (o.notify_change_tx, after.1) ∷ next_states n after.0

  notify-alone :
      (o : Observers Tx)
      → notify_change_all (alone o)
        ≡ (alone (notify_change o).0, (o.notify_change_tx, (notify_change o).1) ∷ [])
  unfolding notify_change_all notify_arcs get insert notify_change matcher_values
  notify-alone o = refl

  change-alone :
      (overflow_checks : Bool) (n : ℕ) (o : Observers Tx)
      → n + 1 < 2 ^ 32
      → change overflow_checks (record { counter = n; observers = alone o })
        ≡ returned (record {
          state = record { counter = n + 1; observers = alone (notify_change o).0 };
          told = (o.notify_change_tx, (notify_change o).1) ∷ [];
        })
  unfolding change
  change-alone overflow_checks n o h =
      let s : CounterState Tx = record { counter = n; observers = alone o } in
      ap (notify_after s) (increment_below overflow_checks n h)
      ∙ ap
          (λ w.
            returned (record { state = record { counter = n + 1; observers = w.0 }; told = w.1 }))
          (notify-alone o)

  run-alone :
      (overflow_checks : Bool) (events : List Event) (n : ℕ) (o : Observers Tx)
      → n + length events < 2 ^ 32
      → run overflow_checks (record { counter = n; observers = alone o }) events
        ≡ returned (record {
          state = record {
            counter = n + length events;
            observers = alone (notify_times (length events) o);
          };
          told = next_states (length events) o;
        })
  unfolding run notify_times
  run-alone overflow_checks [] n o h = let z : n + 0 ≡ n = omega arith in rw z refl
  run-alone overflow_checks (tick ∷ events) n o h =
      let rest = run-alone overflow_checks events (n + 1) (notify_change o).0 (omega arith) in
      let z : n + suc (length events) ≡ (n + 1) + length events = omega arith in
      rw (run, change-alone overflow_checks n o (omega arith), rest, z) refl
  run-alone overflow_checks (put ∷ events) n o h =
      let rest = run-alone overflow_checks events (n + 1) (notify_change o).0 (omega arith) in
      let z : n + suc (length events) ≡ (n + 1) + length events = omega arith in
      rw (run, change-alone overflow_checks n o (omega arith), rest, z) refl

  notify_times_key :
      (n : ℕ) (o : Observers Tx) → (notify_times n o).relative_path_key ≡ o.relative_path_key
  unfolding notify_times notify_change
  notify_times_key zero o = refl
  notify_times_key (suc n) o = notify_times_key n (notify_change o).0

  abbrev pub emptied : ObserversHolder Tx
  emptied = record { inner = record { map = [] }; arcs = []; next_arc = 1 }

  alone-IsHolder : (o : Observers Tx) → IsHolder (alone o)
  unfolding get
  alone-IsHolder o = record {
    entries = ((o, refl, refl), tt);
    fresh = λ arc p e. elim (Bool-cases (0 == arc)) [
      | inl y ↦ let same : 0 ≡ arc = (nat_eq.eq_iff 0 arc).1 y in omega arith
      | inr n ↦ absurd (let e' : none ≡ some p = rw n at e in cc)
    ];
  }

  detach-alone :
      (o : Observers Tx)
      → detach (alone o) (record { key = o.relative_path_key; value = 0 }) ≡ returned (emptied, o)
  unfolding get remove lookup_exact
  detach-alone o =
      let a : Attached = record { key = o.relative_path_key; value = 0 } in
      let same = ==-refl o.relative_path_key in
      (detach_attached (alone o) a o (alone-IsHolder o) (rw same refl) refl).0
      ∙ ap (λ m. returned (record { inner = record { map = m }; arcs = []; next_arc = 1 }, o))
          (rw same refl)

  -- While the counter is observed on one path, and as long as it does not overflow: every tick and
  -- every request counts once and tells the handle once, with its next number and in order;
  -- `on_active` ends without a panic, gives the handle back with all of those changes counted, and
  -- leaves no handle attached.
  pub on_active_lem :
      (overflow_checks : Bool) (events : List Event) (n : ℕ) (o : Observers Tx)
      → n + length events < 2 ^ 32
      → on_active overflow_checks (record { counter = n; observers = new_holder }) o events
        ≡ returned (
          record {
            state = record { counter = n + length events; observers = emptied };
            told = next_states (length events) o;
          },
          notify_times (length events) o,
        )
  unfolding on_active attach new_holder insert matcher_insert new_empty
  on_active_lem overflow_checks events n o h =
      let count = length events in
      let after = notify_times count o in
      let key = notify_times_key count o in
      ap (detach_after (record { key = o.relative_path_key; value = 0 }))
        (run-alone overflow_checks events n o h)
      ∙ ap (detached (next_states count o) (n + count)) (
          ap (λ k. detach (alone after) (record { key = k; value = 0 })) (sym key)
          ∙ detach-alone after)
