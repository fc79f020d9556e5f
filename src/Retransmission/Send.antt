-- ===== src/Retransmission/Send.antt =====
-- `SendReliably::into_future` of retransmission_manager.rs. What the runtime decides enters as
-- arguments: the first timeout, drawn from the range; whether the packet channel takes attempt n;
-- and the branches in which the `select!`s complete, in order. When that list ends, the future is
-- still waiting.
pub mod Attempts
use coap_server_rs.Base.{
  ℕ, zero, suc, ◌+◌, ◌-◌, ◌*◌, ◌^◌, Bool, true, false, Option, none, some, List, [], ◌∷◌, Result,
  ok, err, ltb, if◌then◌else◌,
}
use coap_server_rs.Coap.{MessageType, confirmable, non_confirmable, acknowledgement, reset}
use coap_server_rs.Retransmission.{
  ReplyEvent, nothing, peer_response, internal_error, unexpected_type, SendFailed, no_reply,
  reset_received, transmission_error, send_internal_error,
}
use coap_server_rs.Retransmission.Manager.{SendReliably}

-- The largest `Duration`: 2^64 - 1 seconds and 999,999,999 nanoseconds.
abbrev pub duration_max : ℕ
duration_max = 2 ^ 64 * 10 ^ 9 - 1

-- A branch of the `select!`: the channel changed, and holds an event, or the sleep ended.
pub data Wake (Endpoint : Type 0) : Type 0 where
  changed : ReplyEvent Endpoint → Wake Endpoint
  slept : Wake Endpoint

pub data Waited (Endpoint : Type 0) : Type 0 where
  finished : Result (Unit {0}) (SendFailed Endpoint) → Waited Endpoint
  timed_out : List (Wake Endpoint) → Waited Endpoint
  waiting : Waited Endpoint

pub data Progress (Endpoint : Type 0) : Type 0 where
  done : Result (Unit {0}) (SendFailed Endpoint) → Progress Endpoint
  pending : Progress Endpoint
  overflow_panic : Progress Endpoint

-- The packets sent, the timeout of each wait, and where the future stands.
pub record Run (Endpoint Packet : Type 0) : Type 0 where
  pub transmissions : List Packet
  pub timeouts : List ℕ
  pub progress : Progress Endpoint

module _ {Endpoint : Type 0} where
  abbrev pub reply_result : ReplyEvent Endpoint → Option (Result (Unit {0}) (SendFailed Endpoint))
  reply_result nothing = none
  reply_result (peer_response acknowledgement) = some (ok tt)
  reply_result (peer_response reset) = some (err reset_received)
  reply_result (peer_response t) = some (err (send_internal_error (unexpected_type t)))
  reply_result (internal_error e) = some (err (send_internal_error e))

  -- The inner loop: it sleeps anew after a change that brings no reply.
  unfoldable pub wait_reply : List (Wake Endpoint) → Waited Endpoint
  wait_reply [] = waiting
  wait_reply (slept ∷ wakes) = timed_out wakes
  wait_reply (changed e ∷ wakes) = elim (reply_result e) [
    | none ↦ wait_reply wakes
    | some r ↦ finished r
  ]

  module _ {Packet : Type 0} where
    abbrev ended : Progress Endpoint → Run Endpoint Packet
    ended p = record { transmissions = []; timeouts = []; progress = p }

    abbrev attempted : Packet → ℕ → Run Endpoint Packet → Run Endpoint Packet
    attempted p t run = record {
      transmissions = p ∷ run.transmissions;
      timeouts = t ∷ run.timeouts;
      progress = run.progress;
    }

    module _ (packet : Packet) (max_retransmit : ℕ) (accepts : ℕ → Bool) where
      -- The outer loop, by the number of attempts left.
      unfoldable pub attempts : ℕ → ℕ → ℕ → List (Wake Endpoint) → Run Endpoint Packet
      unfolding wait_reply
      attempts zero attempt timeout wakes = ended (done (err (no_reply (suc max_retransmit))))
      attempts (suc left) attempt timeout wakes =
          let after_wait : Run Endpoint Packet = elim (wait_reply wakes) [
            | finished r ↦ ended (done r)
            | timed_out rest ↦ attempts left (attempt + 1) (timeout * 2) rest
            | waiting ↦ ended pending
          ] in
          if accepts attempt
          then if ltb duration_max (timeout * 2)
            then record { transmissions = packet ∷ []; timeouts = []; progress = overflow_panic }
            else attempted packet timeout after_wait
          else ended (done (err transmission_error))

module _ {Endpoint Tx F Packet : Type 0} where
  unfoldable pub into_future :
      SendReliably Endpoint Tx F Packet
      → ℕ
      → (ℕ → Bool)
      → List (Wake Endpoint)
      → Run Endpoint Packet
  unfolding attempts
  into_future self first_timeout accepts wakes =
      attempts self.packet self.parameters.max_retransmit accepts
        (suc self.parameters.max_retransmit) 0 first_timeout wakes
