-- ===== src/Retransmission/Manager/Ids.antt =====
-- The message ids of a history of calls.
use coap_server_rs.Base.{ℕ, suc, ◌+◌, ◌%◌, ◌^◌, ◌<◌, ◌≡◌, Bool, List, [], ◌∷◌, ◌++◌, PartialEq, All}
use coap_server_rs.Coap.{Coap}
use coap_server_rs.Retransmission.{key_eq, ReplyEvent, internal_error}
use coap_server_rs.Retransmission.Manager.{RetransmissionManager, maybe_handle_reply, send_reliably}

-- A call, with the channels that have a receiver at its time.
pub data Call (Endpoint Tx Packet : Type 0) : Type 0 where
  sends : (Tx → Bool) → Packet → Endpoint → Tx → Call Endpoint Tx Packet
  replies : (Tx → Bool) → Packet → Endpoint → Call Endpoint Tx Packet

module _ {Endpoint Tx Packet : Type 0} where
  abbrev pub count_sends : List (Call Endpoint Tx Packet) → ℕ
  count_sends [] = 0
  count_sends (sends alive packet peer tx ∷ calls) = suc (count_sends calls)
  count_sends (replies alive packet peer ∷ calls) = count_sends calls

-- No send is told that another took its key.
abbrev pub IsFromPeer : {Endpoint Tx : Type 0} → Tx × ReplyEvent Endpoint → Type 0
IsFromPeer (tx, internal_error t) = ⊥
IsFromPeer _ = Unit {0}

-- The id lies among the last `n` that were given out.
abbrev IsRecent : ℕ → ℕ → ℕ → Type 0
IsRecent next n id = (j : ℕ) × (j < n) × ((id + suc j) % 2 ^ 16 ≡ next)

module _ (c : Coap) {Endpoint Tx F : Type 0} ⦃e : PartialEq Endpoint⦄ where
  open c use {
    Packet, message_id, get_type, message_id-set_message_id, message_id-set_type, get_type-set_type,
  }

  -- Everything that a history of calls sends on channels, and the state that it leaves.
  unfoldable pub history :
      RetransmissionManager Endpoint Tx F
      → List (Call Endpoint Tx Packet)
      → List (Tx × ReplyEvent Endpoint) × RetransmissionManager Endpoint Tx F
  history self [] = ([], self)
  history self (sends alive packet peer tx ∷ calls) =
      let s = send_reliably c alive self packet peer tx in
      let rest = history s.manager calls in (s.sent ++ rest.0, rest.1)
  history self (replies alive packet peer ∷ calls) =
      let h = maybe_handle_reply c alive self packet peer in
      let rest = history h.manager calls in (h.sent ++ rest.0, rest.1)

  record Recent (n : ℕ) (self : RetransmissionManager Endpoint Tx F) : Type 0 where
    bounded : self.next_message_id < 2 ^ 16
    recent : All (λ b. IsRecent self.next_message_id n b.0.message_id) self.unacknowledged_messages
