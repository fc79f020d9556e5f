-- ===== src/ObserveHandler/Lifecycle.antt =====
-- The lifecycles that observe_handler.rs spawns: `on_active` by the path of its request.
use coap_server_rs.Base.{
  text_eq, ℕ, Option, none, some, List, [], ◌∷◌, Result, ok, err, Dict, get, insert, values, nat_eq,
  list_eq, PartialEq, ◌==◌, Text, if◌then◌else◌, arith, ◌≡◌, refl, ◌∙◌, get-insert, get-remove,
  Option-cases, Bool-cases, ◌⊎◌, inl, inr,
}
use coap_server_rs.Observers.{Observers}
use coap_server_rs.ObserveHandler.{
  ObserveHandler, RegistrationKey, RegistrationsForPath, ObserveRequest, ObserveOption, register,
  deregister, Surroundings, Processed, maybe_process_registration, registration_eq, process_from,
  process_response, process_flag, on_active_returned, new_handler,
}
use coap_server_rs.ObserveHandler.Counts.{count, remove_first, count-remove_first}
use coap_server_rs.ObserveHandler.Process.{registration_of}
use coap_server_rs.Base.{◌+◌, ◌≤◌, sym, ◌⊎◌}

-- A handler with the paths whose lifecycle has been spawned and has not come to its end.
pub record Running (Endpoint Tx Term : Type 0) : Type 0 where
  pub handler : ObserveHandler Endpoint Tx Term
  pub active : List Text

abbrev add_spawned : {Tx : Type 0} → Option (Text × Observers Tx) → List Text → List Text
add_spawned none active = active
add_spawned (some (path, _)) active = path ∷ active

module _ {Endpoint Tx Term : Type 0} ⦃e : PartialEq Endpoint⦄ where
  abbrev pub after_request :
      Running Endpoint Tx Term
      → Surroundings Tx Term
      → ObserveRequest Endpoint
      → Running Endpoint Tx Term
  after_request s outside req =
      let after = maybe_process_registration s.handler outside req in
      record { handler = after.handler; active = add_spawned after.spawned s.active }

  abbrev pub after_return : Running Endpoint Tx Term → Text → Running Endpoint Tx Term
  after_return s path = record {
    handler = (on_active_returned s.handler path).0;
    active = remove_first path s.active;
  }

  -- Requests in any order, and lifecycles that end in any order.
  pub data Reachable : Running Endpoint Tx Term → Type 0 where
    started :
        (path_prefix : Text) → Reachable (record { handler = new_handler path_prefix; active = [] })
    requested :
        (s : Running Endpoint Tx Term) (outside : Surroundings Tx Term)
        (req : ObserveRequest Endpoint)
        → Reachable s
        → Reachable (after_request s outside req)
    on_active_ended :
        (s : Running Endpoint Tx Term) (path : Text)
        → 1 ≤ count path s.active
        → Reachable s
        → Reachable (after_return s path)

  abbrev pub entries_of : Option (RegistrationsForPath Endpoint Tx Term) → ℕ
  entries_of none = 0
  entries_of (some for_path) = 1

  -- What a request does to the table and to the lifecycles.
  abbrev IsProcessed : ObserveHandler Endpoint Tx Term → Text → Processed Endpoint Tx Term → Type 0
  IsProcessed self path after =
      let m = self.registrations_by_path in
      ((after.handler.registrations_by_path ≡ m) × (after.spawned ≡ none))
      ⊎ ((for_path : RegistrationsForPath Endpoint Tx Term) × (after.handler.registrations_by_path
            ≡ insert path for_path m)
          × (((get path m ≡ none) × (o : Observers Tx) × (after.spawned ≡ some (path, o)))
              ⊎ ((old : RegistrationsForPath Endpoint Tx Term) × (get path m ≡ some old)
                  × (after.spawned ≡ none))))

  process_from-IsProcessed :
      (self : ObserveHandler Endpoint Tx Term) (outside : Surroundings Tx Term)
      (req : ObserveRequest Endpoint) (flag : ObserveOption) (seq : Option ℕ)
      (source : Option Endpoint)
      → IsProcessed self req.path (process_from self outside req flag seq source)
  process_from-IsProcessed self outside req flag seq none = inl (refl, refl)
  process_from-IsProcessed self outside req register seq (some peer) =
      elim (Option-cases (get req.path self.registrations_by_path)) [
        | inl n ↦ rw n (inr (_, refl, inl (refl, _, refl)))
        | inr (fp, s) ↦ rw s (inr (_, refl, inr (fp, refl, refl)))
      ]
  process_from-IsProcessed self outside req deregister seq (some peer) =
      elim (Option-cases (get req.path self.registrations_by_path)) [
        | inl n ↦ rw n (inl (refl, refl))
        | inr (fp, s) ↦ rw s (inr (_, refl, inr (fp, refl, refl)))
      ]

  maybe_process_registration-IsProcessed :
      (self : ObserveHandler Endpoint Tx Term) (outside : Surroundings Tx Term)
      (req : ObserveRequest Endpoint)
      → IsProcessed self req.path (maybe_process_registration self outside req)
  unfolding maybe_process_registration
  maybe_process_registration-IsProcessed self outside req = flags req.observe_flag
    where
      responses :
          (flag : ObserveOption) (response : Option (Option (Result ℕ Text)))
          → IsProcessed self req.path (process_response self outside req flag response)
      responses flag none = inl (refl, refl)
      responses flag (some (some (err _))) = inl (refl, refl)
      responses flag (some (some (ok n))) =
          process_from-IsProcessed self outside req flag (some n) req.source
      responses flag (some none) = process_from-IsProcessed self outside req flag none req.source

      flags :
          (flag : Option (Result ObserveOption Text))
          → IsProcessed self req.path (process_flag self outside req flag)
      flags none = inl (refl, refl)
      flags (some (err e)) = inl (refl, refl)
      flags (some (ok flag)) = responses flag req.response

  entries_of-insert :
      (path p : Text) (fp : RegistrationsForPath Endpoint Tx Term)
      (m : Dict Text (RegistrationsForPath Endpoint Tx Term))
      → entries_of (get p (insert path fp m)) ≡ (if path == p then 1 else entries_of (get p m))
  entries_of-insert path p fp m =
      rw (get-insert path p fp m)
        (elim (Bool-cases (path == p)) [ inl y ↦ rw y refl | inr n ↦ rw n refl ])

  after_request_lem :
      (s : Running Endpoint Tx Term) (outside : Surroundings Tx Term)
      (req : ObserveRequest Endpoint) (p : Text)
      → count p s.active ≡ entries_of (get p s.handler.registrations_by_path)
      → count p (after_request s outside req).active
        ≡ entries_of (get p (after_request s outside req).handler.registrations_by_path)
  after_request_lem s outside req p h =
      elim (maybe_process_registration-IsProcessed s.handler outside req) [
        | inl (same, spawned) ↦ rw (same, spawned) h
        | inr (fp, inserted, inl (n, o, spawned)) ↦
            rw (inserted, spawned, entries_of-insert req.path p fp s.handler.registrations_by_path)
              (elim (Bool-cases (req.path == p)) [
                | inl y ↦
                    let same : req.path ≡ p = (text_eq.eq_iff req.path p).1 y in
                    let n' : get p s.handler.registrations_by_path ≡ none = rw⁻¹ same n in
                    let h' : count p s.active ≡ 0 = rw n' at h in rw y (omega arith)
                | inr f ↦ rw f (omega (arith, h))
              ])
        | inr (fp, inserted, inr (old, n, spawned)) ↦
            rw (inserted, spawned, entries_of-insert req.path p fp s.handler.registrations_by_path)
              (elim (Bool-cases (req.path == p)) [
                | inl y ↦
                    let same : req.path ≡ p = (text_eq.eq_iff req.path p).1 y in
                    let n' : get p s.handler.registrations_by_path ≡ some old = rw⁻¹ same n in
                    let h' : count p s.active ≡ 1 = rw n' at h in rw y h'
                | inr f ↦ rw f h
              ])
      ]

  entries_of-on_active_returned :
      (self : ObserveHandler Endpoint Tx Term) (path p : Text)
      → entries_of (get p (on_active_returned self path).0.registrations_by_path)
        ≡ (if path == p then 0 else entries_of (get p self.registrations_by_path))
  unfolding on_active_returned
  entries_of-on_active_returned self path p =
      elim (Option-cases (get path self.registrations_by_path)) [
        | inr (fp, h) ↦
            rw (on_active_returned, h, get-remove path p self.registrations_by_path)
              (split_on_path path p)
        | inl n ↦
            rw (on_active_returned, n)
              (elim (Bool-cases (path == p)) [
                | inl y ↦
                    let same : path ≡ p = (text_eq.eq_iff path p).1 y in
                    let n' : get p self.registrations_by_path ≡ none = rw⁻¹ same n in
                    rw (y, n') refl
                | inr f ↦ rw f refl
              ])
      ]
    where
      split_on_path :
          (path p : Text)
          → entries_of (if path == p then none else get p self.registrations_by_path)
            ≡ (if path == p then 0 else entries_of (get p self.registrations_by_path))
      split_on_path path p = elim (Bool-cases (path == p)) [ inl y ↦ rw y refl | inr f ↦ rw f refl ]

  entries_of_bound : (o : Option (RegistrationsForPath Endpoint Tx Term)) → entries_of o ≤ 1
  entries_of_bound none = omega arith
  entries_of_bound (some o) = omega arith

  -- For every path: one lifecycle runs while the path has an entry, and none while it has none; so
  -- `on_active` is never called for a path while a call for the same path has not come to its end.
  pub count-Reachable :
      (s : Running Endpoint Tx Term) (p : Text)
      → Reachable s
      → count p s.active ≡ entries_of (get p s.handler.registrations_by_path)
  unfolding new_handler get
  count-Reachable s p (started path_prefix) = refl
  count-Reachable s p (requested s' outside req r) =
      after_request_lem s' outside req p (count-Reachable s' p r)
  count-Reachable s p (on_active_ended s' path one r) =
      let before = count-Reachable s' p r in
      let removed = count-remove_first path p s'.active one in
      sym (
        entries_of-on_active_returned s'.handler path p ∙ (elim (Bool-cases (path == p)) [
          | inl y ↦
              let removed' : count p (remove_first path s'.active) + 1 ≡ count p s'.active =
                rw y at removed in
              let most = entries_of_bound (get p s'.handler.registrations_by_path) in
              rw y (omega arith)
          | inr f ↦
              let removed' : count p (remove_first path s'.active) + 0 ≡ count p s'.active =
                rw f at removed in
              rw f (omega arith)
        ]))

  -- When the lifecycle of a path ends its entry is there, all of its registrations are told to end,
  -- none is left for the path, and those of other paths stay.
  pub on_active_returned_lem :
      (s : Running Endpoint Tx Term) (path : Text)
      → Reachable s
      → 1 ≤ count path s.active
      → (fp : RegistrationsForPath Endpoint Tx Term) × (get path s.handler.registrations_by_path
          ≡ some fp)
        × ((on_active_returned s.handler path).1 ≡ values fp.registrations)
        × ((p : Text) (k : RegistrationKey Endpoint)
            → registration_of (on_active_returned s.handler path).0 p k
              ≡ (if path == p then none else registration_of s.handler p k))
  unfolding on_active_returned registration_of
  on_active_returned_lem s path r one =
      elim (Option-cases (get path s.handler.registrations_by_path)) [
        | inl n ↦
            let c = count-Reachable s path r in
            let c' : count path s.active ≡ 0 = rw n at c in absurd (omega arith)
        | inr (fp, h) ↦ (
          fp,
          h,
          rw (on_active_returned, h) refl,
          λ p k.
              rw (on_active_returned, h, get-remove path p s.handler.registrations_by_path)
                (elim (Bool-cases (path == p)) [ inl y ↦ rw y refl | inr f ↦ rw f refl ]),
        )
      ]
