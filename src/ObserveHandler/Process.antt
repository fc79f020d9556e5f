-- ===== src/ObserveHandler/Process.antt =====
-- What a request does to the registrations of observe_handler.rs.
use coap_server_rs.Base.{
  text_eq, ℕ, true, Option, none, some, [], Result, ok, Dict, get, insert, nat_eq, list_eq,
  PartialEq, ◌&&◌, ◌==◌, Text, if◌then◌else◌, arith, ◌≡◌, ◌≢◌, refl, ◌∙◌, get-insert, get-remove,
  Option-cases, Bool-cases, inl, inr,
}
use coap_server_rs.ObserveHandler.{
  ObserveHandler, RegistrationKey, RegistrationsForPath, ObserveRequest, ObserveOption, register,
  deregister, Surroundings, registered, maybe_process_registration, observers_for, to_list,
  registration_eq, number_of, set_value, event_of, do_register, do_deregister,
}

abbrev pub sequence_of : Option ℕ → Option (Result ℕ Text)
sequence_of none = none
sequence_of (some n) = some (ok n)

-- A request that can be processed: its flag, the sequence number that its response has, if any, and
-- its peer.
pub record IsRequest {Endpoint : Type 0} (req : ObserveRequest Endpoint) (flag : ObserveOption)
    (seq : Option ℕ) (peer : Endpoint) : Type 0 where
  pub flagged : req.observe_flag ≡ some (ok flag)
  pub prepared : req.response ≡ some (sequence_of seq)
  pub from_peer : req.source ≡ some peer

module _ {Endpoint Tx Term : Type 0} ⦃e : PartialEq Endpoint⦄ where
  abbrev pub registration_in :
      RegistrationKey Endpoint → Option (RegistrationsForPath Endpoint Tx Term) → Option Term
  registration_in key none = none
  registration_in key (some for_path) = get key for_path.registrations

  -- The registration of a peer and token for a path.
  unfoldable pub registration_of :
      ObserveHandler Endpoint Tx Term → Text → RegistrationKey Endpoint → Option Term
  registration_of self path key = registration_in key (get path self.registrations_by_path)

  -- The channel on which changes of a path are told, the new one when the path has none.
  abbrev pub channel_in : Tx → Option (RegistrationsForPath Endpoint Tx Term) → Tx
  channel_in new none = new
  channel_in new (some for_path) = for_path.notify_change_tx

  processed_register :
      (self : ObserveHandler Endpoint Tx Term) (outside : Surroundings Tx Term)
      (req : ObserveRequest Endpoint) (seq : Option ℕ) (peer : Endpoint)
      → IsRequest req register seq peer
      → maybe_process_registration self outside req
        ≡ do_register self outside req.path (record { peer = peer; token = req.token }) seq
  unfolding maybe_process_registration
  processed_register self outside req none peer h = rw (h.flagged, h.prepared, h.from_peer) refl
  processed_register self outside req (some n) peer h = rw (h.flagged, h.prepared, h.from_peer) refl

  processed_deregister :
      (self : ObserveHandler Endpoint Tx Term) (outside : Surroundings Tx Term)
      (req : ObserveRequest Endpoint) (seq : Option ℕ) (peer : Endpoint)
      → IsRequest req deregister seq peer
      → maybe_process_registration self outside req
        ≡ do_deregister self req.path
            (record { peer = peer; token = req.token })
            (get req.path self.registrations_by_path)
  unfolding maybe_process_registration
  processed_deregister self outside req none peer h = rw (h.flagged, h.prepared, h.from_peer) refl
  processed_deregister self outside req (some n) peer h =
      rw (h.flagged, h.prepared, h.from_peer) refl

  -- An entry that is put in the place of one: at its path it counts, elsewhere the old ones do.
  replaced :
      (path p : Text) (k : RegistrationKey Endpoint) (new : RegistrationsForPath Endpoint Tx Term)
      (m : Dict Text (RegistrationsForPath Endpoint Tx Term))
      → registration_in k (get p (insert path new m))
        ≡ (if path == p then get k new.registrations else registration_in k (get p m))
  replaced path p k new m =
      rw (get-insert path p new m)
        (elim (Bool-cases (path == p)) [ inl y ↦ rw y refl | inr n ↦ rw n refl ])

  -- A change of one key's registration in the entry of a path is seen there and nowhere else.
  updated :
      (path p : Text) (key k : RegistrationKey Endpoint) (t : Option Term)
      (old new : RegistrationsForPath Endpoint Tx Term)
      (m : Dict Text (RegistrationsForPath Endpoint Tx Term))
      → registration_in k (get path m) ≡ get k old.registrations
      → get k new.registrations ≡ (if key == k then t else get k old.registrations)
      → registration_in k (get p (insert path new m))
        ≡ (if (path == p) && (key == k) then t else registration_in k (get p m))
  updated path p key k t old new m h c = replaced path p k new m ∙ elim (Bool-cases (path == p)) [
    | inl y ↦
        let same : path ≡ p = (text_eq.eq_iff path p).1 y in
        let h' : registration_in k (get p m) ≡ get k old.registrations = rw⁻¹ same h in
        rw (y, c, h') refl
    | inr n ↦ rw n refl
  ]

  absent :
      (path p : Text) (key k : RegistrationKey Endpoint)
      (m : Dict Text (RegistrationsForPath Endpoint Tx Term))
      → get path m ≡ none
      → registration_in k (get p m)
        ≡ (if (path == p) && (key == k) then none else registration_in k (get p m))
  absent path p key k m n = elim (Bool-cases ((path == p) && (key == k))) [
    | inr f ↦ rw f refl
    | inl y ↦
        let here : (path == p) ≡ true = ground arith in
        let same : path ≡ p = (text_eq.eq_iff path p).1 here in
        let n' : get p m ≡ none = rw⁻¹ same n in rw (y, n') refl
  ]

  -- A request to register adds the registration of its peer and token and touches no other; it is
  -- told the channel of its path; the registration that it replaces, if any, and no other ends; a
  -- lifecycle is spawned exactly when the path has no entry; and the response gets the number of
  -- the channel's state, unless it has a number of its own.
  pub register_lem :
      (self : ObserveHandler Endpoint Tx Term) (outside : Surroundings Tx Term)
      (req : ObserveRequest Endpoint) (seq : Option ℕ) (peer : Endpoint)
      → IsRequest req register seq peer
      → let key : RegistrationKey Endpoint = record { peer = peer; token = req.token } in
        let entry = get req.path self.registrations_by_path in
        let tx = channel_in outside.new_watch entry in
        let after = maybe_process_registration self outside req in
        (after.result
          ≡ ok (registered (record { termination_rx = outside.new_oneshot; notify_rx = tx })))
        × ((path : Text) (k : RegistrationKey Endpoint)
            → registration_of after.handler path k ≡ (
                if (req.path == path) && (key == k)
                then some outside.new_oneshot
                else registration_of self path k))
        × (after.terminated ≡ to_list (registration_of self req.path key))
        × ((entry ≡ none) → after.spawned ≡ some (req.path, observers_for self outside req.path))
        × ((entry ≢ none) → after.spawned ≡ none)
        × (after.observe_value ≡ set_value seq (number_of (outside.borrow tx)))
  unfolding registration_of get
  register_lem self outside req seq peer h =
      let key : RegistrationKey Endpoint = record { peer = peer; token = req.token } in
      let m = self.registrations_by_path in
      rw (processed_register self outside req seq peer h) (elim (Option-cases (get req.path m)) [
        | inl n ↦ rw n (
          refl,
          λ p k.
              updated req.path p key k (some outside.new_oneshot)
                (record { notify_change_tx = outside.new_watch; registrations = [] }) _ m
                (rw n refl) (get-insert key k outside.new_oneshot []),
          refl,
          λ _. refl,
          λ r. absurd (r refl),
          refl,
        )
        | inr (fp, s) ↦ rw s (
          refl,
          λ p k.
              updated req.path p key k (some outside.new_oneshot) fp _ m (rw s refl)
                (get-insert key k outside.new_oneshot fp.registrations),
          refl,
          λ r. absurd cc,
          λ _. refl,
          refl,
        )
      ])

  -- A request to deregister ends the registration of its peer and token for its path, if there is
  -- one, touches no other, and says whether there was one; no lifecycle is spawned and no sequence
  -- number is set.
  pub deregister_lem :
      (self : ObserveHandler Endpoint Tx Term) (outside : Surroundings Tx Term)
      (req : ObserveRequest Endpoint) (seq : Option ℕ) (peer : Endpoint)
      → IsRequest req deregister seq peer
      → let key : RegistrationKey Endpoint = record { peer = peer; token = req.token } in
        let existing = registration_of self req.path key in
        let after = maybe_process_registration self outside req in
        (after.result ≡ ok (event_of existing))
        × ((path : Text) (k : RegistrationKey Endpoint)
            → registration_of after.handler path k
              ≡ (if (req.path == path) && (key == k) then none else registration_of self path k))
        × (after.terminated ≡ to_list existing)
        × (after.spawned ≡ none)
        × (after.observe_value ≡ none)
  unfolding registration_of
  deregister_lem self outside req seq peer h =
      let key : RegistrationKey Endpoint = record { peer = peer; token = req.token } in
      let m = self.registrations_by_path in
      rw (processed_deregister self outside req seq peer h) (elim (Option-cases (get req.path m)) [
        | inl n ↦ rw n (refl, λ p k. absent req.path p key k m n, refl, refl, refl)
        | inr (fp, s) ↦ rw s (
          refl,
          λ p k.
              updated req.path p key k none fp _ m (rw s refl) (get-remove key k fp.registrations),
          refl,
          refl,
          refl,
        )
      ])
