-- ===== src/Retransmission/Manager/Replies.antt =====
-- Which send a reply reaches.
use coap_server_rs.Base.{
  ◌≡◌, Bool, true, false, none, some, [], ◌∷◌, ok, err, returned, panicked, PartialEq, get, remove,
  if◌then◌else◌, get-remove, ◌⊎◌, inl, inr, Bool-cases, refl, ==-refl, get-insert_self, ◌∙◌, ◌+◌,
  ◌%◌, ◌^◌,
}
use coap_server_rs.Coap.{Coap, confirmable}
use coap_server_rs.Retransmission.{key_eq, peer_response}
use coap_server_rs.Retransmission.Manager.{
  RetransmissionManager, Handled, Started, is_reply, key_of, prepared, maybe_handle_reply,
  send_reliably,
}

module _ (c : Coap) {Endpoint Tx F : Type 0} ⦃e : PartialEq Endpoint⦄ where
  open c use {
    Packet, message_id, get_type, code, get_type-set_type, message_id-set_type,
    message_id-set_message_id, code-set_type, code-set_message_id,
  }

  abbrev pub Unrecognized :
      RetransmissionManager Endpoint Tx F → Packet → Handled Endpoint Tx F Packet → Type 0
  Unrecognized self packet h =
      h ≡ record { manager = self; sent = []; outcome = returned (err packet) }

  -- A packet that is neither an acknowledgement nor a reset, or whose message id and peer belong
  -- to no waiting send, is handed back; nothing is sent and the manager stays as it was.
  pub maybe_handle_reply-Unrecognized :
      (has_receiver : Tx → Bool) (self : RetransmissionManager Endpoint Tx F) (packet : Packet)
      (peer : Endpoint)
      → (is_reply (get_type packet) ≡ false)
        ⊎ (get (key_of c packet peer) self.unacknowledged_messages ≡ none)
      → Unrecognized self packet (maybe_handle_reply c has_receiver self packet peer)
  unfolding maybe_handle_reply
  maybe_handle_reply-Unrecognized has_receiver self packet peer (inl h) = rw h refl
  maybe_handle_reply-Unrecognized has_receiver self packet peer (inr h) =
      elim (Bool-cases (is_reply (get_type packet))) [ inl t ↦ rw (t, h) refl | inr f ↦ rw f refl ]

  pub maybe_handle_reply_hit :
      (has_receiver : Tx → Bool) (self : RetransmissionManager Endpoint Tx F) (packet : Packet)
      (peer : Endpoint) (tx : Tx)
      → is_reply (get_type packet) ≡ true
      → get (key_of c packet peer) self.unacknowledged_messages ≡ some tx
      → maybe_handle_reply c has_receiver self packet peer ≡ record {
        manager = record self {
          unacknowledged_messages = remove (key_of c packet peer) self.unacknowledged_messages;
        };
        sent = if has_receiver tx then (tx, peer_response (get_type packet)) ∷ [] else [];
        outcome = if has_receiver tx then returned (ok tt) else panicked;
      }
  unfolding maybe_handle_reply
  maybe_handle_reply_hit has_receiver self packet peer tx r h = rw (r, h) refl

  module _ (has_receiver : Tx → Bool) (self : RetransmissionManager Endpoint Tx F)
      (request reply : Packet) (peer : Endpoint) (tx : Tx) where
    abbrev pub started : Started Endpoint Tx F Packet
    started = send_reliably c has_receiver self request peer tx

    sent_key :
        message_id reply ≡ message_id started.send.packet
        → get (key_of c reply peer) started.manager.unacknowledged_messages ≡ some tx
    unfolding send_reliably
    sent_key h =
        rw h (
          get-insert_self (key_of c (prepared c self request) peer) tx self.unacknowledged_messages)

    -- After `send_reliably` to a peer, the first acknowledgement or reset from that peer under the
    -- message id of the sent packet tells that send, and only it, which type came, while a receiver
    -- of its channel is left; the send is then no longer waiting, so the same reply a second time
    -- is handed back with the manager unchanged.
    pub send_reliably-maybe_handle_reply :
        has_receiver tx ≡ true
        → is_reply (get_type reply) ≡ true
        → message_id reply ≡ message_id started.send.packet
        → let first = maybe_handle_reply c has_receiver started.manager reply peer in
          (first.sent ≡ (tx, peer_response (get_type reply)) ∷ [])
          × (first.outcome ≡ returned (ok tt))
          × Unrecognized first.manager reply
              (maybe_handle_reply c has_receiver first.manager reply peer)
    send_reliably-maybe_handle_reply alive r h =
        let key = key_of c reply peer in
        let table = started.manager.unacknowledged_messages in
        let gone : get key (remove key table) ≡ none =
          rw (get-remove key key table, ==-refl key) refl in
        let again =
          maybe_handle_reply-Unrecognized has_receiver
            (record started.manager { unacknowledged_messages = remove key table }) reply peer
            (inr gone) in
        rw (maybe_handle_reply_hit has_receiver started.manager reply peer tx r (sent_key h), alive)
          (refl, refl, again)

    -- If the send has ended, so that its channel has no receiver, a late acknowledgement or reset
    -- for it panics: ending a send does not take its entry out of the table.
    pub late_reply_panics :
        has_receiver tx ≡ false
        → is_reply (get_type reply) ≡ true
        → message_id reply ≡ message_id started.send.packet
        → (maybe_handle_reply c has_receiver started.manager reply peer).outcome ≡ panicked
    late_reply_panics dead r h =
        rw (maybe_handle_reply_hit has_receiver started.manager reply peer tx r (sent_key h), dead)
          refl

  -- A packet goes out confirmable and under the manager's next message id, its code unchanged; the
  -- next id counts up modulo 2^16, and the send waits under its id and peer.
  pub send_reliably_lem :
      (has_receiver : Tx → Bool) (self : RetransmissionManager Endpoint Tx F) (packet : Packet)
      (peer : Endpoint) (tx : Tx)
      → let s = send_reliably c has_receiver self packet peer tx in
        (get_type s.send.packet ≡ confirmable)
        × (message_id s.send.packet ≡ self.next_message_id)
        × (code s.send.packet ≡ code packet)
        × (s.manager.next_message_id ≡ (self.next_message_id + 1) % 2 ^ 16)
        × (get (key_of c s.send.packet peer) s.manager.unacknowledged_messages ≡ some tx)
  unfolding send_reliably
  send_reliably_lem has_receiver self packet peer tx = (
    get_type-set_type confirmable _,
    message_id-set_type confirmable _ ∙ message_id-set_message_id self.next_message_id packet,
    code-set_type confirmable _ ∙ code-set_message_id self.next_message_id packet,
    refl,
    get-insert_self (key_of c (prepared c self packet) peer) tx self.unacknowledged_messages,
  )
