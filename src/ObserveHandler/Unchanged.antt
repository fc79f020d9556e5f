-- ===== src/ObserveHandler/Unchanged.antt =====
-- The requests that leave the registrations of observe_handler.rs as they are.
use coap_server_rs.Base.{
  ℕ, Option, none, some, [], Result, ok, err, get, nat_eq, list_eq, PartialEq, Text, ◌≡◌, refl,
  Option-cases, ◌⊎◌, inl, inr,
}
use coap_server_rs.Errors.{CoapError}
use coap_server_rs.ObserveHandler.{
  ObserveHandler, ObserveRequest, ObserveOption, register, deregister, Surroundings, Processed,
  maybe_process_registration, answered, no_change, registration_eq, process_from, process_response,
  process_flag,
}

module _ {Endpoint Tx Term : Type 0} ⦃e : PartialEq Endpoint⦄ where
  abbrev pub IsUnchanged : ObserveHandler Endpoint Tx Term → Processed Endpoint Tx Term → Type 0
  IsUnchanged self after =
      (after.handler ≡ self)
      × (after.terminated ≡ [])
      × (after.spawned ≡ none)
      × (after.observe_value ≡ none)

  process_from-IsUnchanged :
      (self : ObserveHandler Endpoint Tx Term) (outside : Surroundings Tx Term)
      (req : ObserveRequest Endpoint) (flag : ObserveOption) (seq : Option ℕ)
      (source : Option Endpoint) (error : CoapError)
      → (process_from self outside req flag seq source).result ≡ err error
      → IsUnchanged self (process_from self outside req flag seq source)
  process_from-IsUnchanged self outside req flag seq none error h = (refl, refl, refl, refl)
  process_from-IsUnchanged self outside req register seq (some peer) error h = absurd cc
  process_from-IsUnchanged self outside req deregister seq (some peer) error h =
      elim (Option-cases (get req.path self.registrations_by_path)) [
        | inl n ↦ rw n (refl, refl, refl, refl)
        | inr (fp, s) ↦ absurd (let h' : ok _ ≡ err error = rw s at h in cc)
      ]

  process_flag-IsUnchanged :
      (self : ObserveHandler Endpoint Tx Term) (outside : Surroundings Tx Term)
      (req : ObserveRequest Endpoint) (flag : Option (Result ObserveOption Text))
      (error : CoapError)
      → (process_flag self outside req flag).result ≡ err error
      → IsUnchanged self (process_flag self outside req flag)
  process_flag-IsUnchanged self outside req none error h = (refl, refl, refl, refl)
  process_flag-IsUnchanged self outside req (some (err e)) error h = (refl, refl, refl, refl)
  process_flag-IsUnchanged self outside req (some (ok flag)) error h = go req.response h
    where
      go :
          (response : Option (Option (Result ℕ Text)))
          → (process_response self outside req flag response).result ≡ err error
          → IsUnchanged self (process_response self outside req flag response)
      go none h = (refl, refl, refl, refl)
      go (some (some (err _))) h = (refl, refl, refl, refl)
      go (some (some (ok n))) h =
          process_from-IsUnchanged self outside req flag (some n) req.source error h
      go (some none) h = process_from-IsUnchanged self outside req flag none req.source error h

  -- A request that gives an error, or that has no Observe flag, changes and ends nothing.
  pub maybe_process_registration-IsUnchanged :
      (self : ObserveHandler Endpoint Tx Term) (outside : Surroundings Tx Term)
      (req : ObserveRequest Endpoint)
      → (req.observe_flag ≡ none)
        ⊎ ((error : CoapError) × ((maybe_process_registration self outside req).result ≡ err error))
      → IsUnchanged self (maybe_process_registration self outside req)
  unfolding maybe_process_registration
  maybe_process_registration-IsUnchanged self outside req (inl n) = rw n (refl, refl, refl, refl)
  maybe_process_registration-IsUnchanged self outside req (inr (error, h)) =
      process_flag-IsUnchanged self outside req req.observe_flag error h

  pub maybe_process_registration_unflagged :
      (self : ObserveHandler Endpoint Tx Term) (outside : Surroundings Tx Term)
      (req : ObserveRequest Endpoint)
      → req.observe_flag ≡ none
      → maybe_process_registration self outside req ≡ answered self (ok no_change)
  unfolding maybe_process_registration
  maybe_process_registration_unflagged self outside req n = rw (maybe_process_registration, n) refl
