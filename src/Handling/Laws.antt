-- ===== src/Handling/Laws.antt =====
-- What `do_handle` answers to a request, and what it leaves registered.
use coap_server_rs.Base.{
  true, none, some, List, [], ◌∷◌, ok, err, PartialEq, list_eq, nat_eq, Text, ◌≡◌, refl, ap, ◌∙◌,
  ◌⊎◌, inl, inr, Option-cases,
}
use coap_server_rs.Coap.{Coap}
use coap_server_rs.Coap.Options.{Options, CoapRequest}
use coap_server_rs.Errors.{CoapError}
use coap_server_rs.U24.{U24}
use coap_server_rs.ObserveHandler.{ObserveHandler, maybe_process_registration, registration_eq}
use coap_server_rs.ObserveHandler.Unchanged.{maybe_process_registration_unflagged}
use coap_server_rs.Handling.Loop.{LoopEvent, left}
use coap_server_rs.Handling.Start.{
  Found, Handled, first_response, observe_request, maybe_handle_observe_registration, respond_to,
  do_handle, only,
}

module _ (c : Coap) (o : Options c) {Endpoint Tx Term F : Type 0} ⦃e : PartialEq Endpoint⦄
    (found : Found c.Packet Endpoint Tx Term) (original : CoapRequest c.Packet Endpoint)
    (unmatched : List Text) (events : List (LoopEvent c.Packet Endpoint Tx F)) where
  open c use {Packet}
  open o use {
    get_observe_value, set_observe_value, get_observe_flag, get_path, get_token,
    get_observe_value-set_observe_value,
  }

  abbrev after : Handled Packet Endpoint Tx Term F
  after = do_handle c o found original unmatched events

  do_handle_of_first :
      (pair : CoapRequest Packet Endpoint)
      → first_response found original unmatched ≡ ok pair
      → after
        ≡ respond_to c o found unmatched events pair
            (maybe_handle_observe_registration c o found pair)
  unfolding do_handle
  do_handle_of_first pair f = rw (do_handle, f) refl

  registration_of_handler :
      (pair : CoapRequest Packet Endpoint) (h : ObserveHandler Endpoint Tx Term)
      → found.observe ≡ some h
      → maybe_handle_observe_registration c o found pair
        ≡ some (maybe_process_registration h found.outside (observe_request c o pair))
  unfolding maybe_handle_observe_registration
  registration_of_handler pair h k = rw (maybe_handle_observe_registration, k) refl

  no_registration :
      (pair : CoapRequest Packet Endpoint)
      → found.observe ≡ none
      → maybe_handle_observe_registration c o found pair ≡ none
  unfolding maybe_handle_observe_registration
  no_registration pair k = rw (maybe_handle_observe_registration, k) refl

  -- An error of the handler or of the block handler is the error of the request: nothing is sent, no
  -- observer is registered or ended, and there are no notifications.
  pub do_handle_error :
      (error : CoapError)
      → first_response found original unmatched ≡ err error
      → after ≡ only c o found (left (err error))
  unfolding do_handle
  do_handle_error error f = rw (do_handle, f) refl

  -- A request without an Observe flag, or to a resource that cannot be observed: its response is sent,
  -- once, and the handling is over; the observers are as they were.
  pub do_handle_once :
      (pair : CoapRequest Packet Endpoint) (response : Packet)
      → found.tx_open ≡ true
      → first_response found original unmatched ≡ ok pair
      → pair.response ≡ some response
      → (found.observe ≡ none) ⊎ (get_observe_flag pair.message ≡ none)
      → after ≡ record (only c o found (left (ok tt))) { responses = response ∷ [] }
  unfolding observe_request
  do_handle_once pair response t f r (inl k) =
      do_handle_of_first pair f
      ∙ ap (respond_to c o found unmatched events pair) (no_registration pair k)
      ∙ rw (t, r) refl
  do_handle_once pair response t f r (inr flag) = elim (Option-cases found.observe) [
    | inl k ↦
        do_handle_of_first pair f
        ∙ ap (respond_to c o found unmatched events pair) (no_registration pair k)
        ∙ rw (t, r) refl
    | inr (h, k) ↦
        do_handle_of_first pair f
        ∙ ap (respond_to c o found unmatched events pair) (
            registration_of_handler pair h k
            ∙ ap some (
                maybe_process_registration_unflagged h found.outside (observe_request c o pair)
                  flag))
        ∙ rw (t, r, k) refl
  ]
