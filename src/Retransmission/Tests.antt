-- ===== src/Retransmission/Tests.antt =====
-- retransmission_manager.rs at concrete values: the cases of its unit tests, and the theorems applied.
-- Endpoints and channels are numbers, and factors count tenths.
use coap_server_rs.Base.{
  ℕ, ◌+◌, ◌*◌, ◌/◌, ◌^◌, ◌≤◌, ◌≡◌, refl, Bool, true, false, not, List, [], ◌∷◌, ok, err, panicked,
  nat_eq, ltb, nat_beq, arith, All, Member, sum, length,
}
use coap_server_rs.Coap.{MessageType, acknowledgement, reset, non_confirmable, empty}
use coap_server_rs.Coap.Sample.{Header, sample_coap}
use coap_server_rs.Retransmission.{nothing, peer_response, no_reply, reset_received, key_eq}
use coap_server_rs.Retransmission.Params.{
  Float32, TransmissionParameters, new_parameters, ack_timeout_range, default_parameters,
}
use coap_server_rs.Retransmission.Manager.{
  RetransmissionManager, SendReliably, maybe_handle_reply, send_reliably,
}
use coap_server_rs.Retransmission.Manager.Replies.{
  send_reliably-maybe_handle_reply, late_reply_panics,
}
use coap_server_rs.Retransmission.Manager.Ids.{Call, sends, replies}
use coap_server_rs.Retransmission.Send.{Wake, changed, slept, done, into_future}
use coap_server_rs.Retransmission.Send.Attempts.{
  into_future_silent, into_future_answered, into_future_bounds,
}

abbrev tenths : Float32
tenths = record {
  F32 = ℕ;
  one = 10;
  one_and_half = 15;
  lt = ltb;
  ne = λ a b. not (nat_beq a b);
  mul_f32 = λ d f. d * f / 10;
}

abbrev once_more : TransmissionParameters ℕ
once_more = record { ack_timeout = 5; ack_random_factor = 10; max_retransmit = 1 }

test_new_parameters : new_parameters tenths 5 10 1 ≡ ok once_more
unfolding new_parameters
test_new_parameters = refl

test_default_range : ack_timeout_range tenths (default_parameters tenths) ≡ (2 * 10 ^ 9, 3 * 10 ^ 9)
unfolding ack_timeout_range default_parameters
test_default_range = refl

abbrev manager : RetransmissionManager ℕ ℕ ℕ
manager = record { next_message_id = 7; unacknowledged_messages = []; parameters = once_more }

abbrev packet : Header
packet = record { id = 0; kind = non_confirmable; class = empty }

abbrev reply_of : MessageType → Header
reply_of t = record { id = 7; kind = t; class = empty }

abbrev all_alive : ℕ → Bool
all_alive _ = true

abbrev none_alive : ℕ → Bool
none_alive _ = false

delivered_example :
    (maybe_handle_reply sample_coap all_alive
      (send_reliably sample_coap all_alive manager packet 1 30).manager
      (reply_of reset)
      1).sent
    ≡ (30, peer_response reset) ∷ []
unfolding send_reliably
delivered_example =
    (send_reliably-maybe_handle_reply sample_coap all_alive manager packet (reply_of reset) 1 30
      refl refl refl).0

late_reply_panics_example :
    (maybe_handle_reply sample_coap none_alive
      (send_reliably sample_coap none_alive manager packet 1 30).manager
      (reply_of acknowledgement)
      1).outcome
    ≡ panicked
unfolding send_reliably
late_reply_panics_example =
    late_reply_panics sample_coap none_alive manager packet (reply_of acknowledgement) 1 30 refl
      refl refl

abbrev calls : List (Call ℕ ℕ Header)
calls =
    sends all_alive packet 1 30
    ∷ replies all_alive (reply_of reset) 1
    ∷ sends all_alive packet 1 31
    ∷ []

abbrev handle : SendReliably ℕ ℕ ℕ Header
handle = record { packet = packet; peer = 1; parameters = once_more; reply_rx = 30 }

abbrev accepting : ℕ → Bool
accepting _ = true

test_reset :
    into_future handle 5 accepting (changed nothing ∷ changed (peer_response reset) ∷ []) ≡ record {
      transmissions = packet ∷ [];
      timeouts = 5 ∷ [];
      progress = done (err reset_received);
    }
unfolding into_future
test_reset = refl

into_future_silent_example :
    let run = into_future handle 5 accepting (slept ∷ slept ∷ []) in
    (run.transmissions ≡ packet ∷ packet ∷ [])
    × (run.timeouts ≡ 5 ∷ 10 ∷ [])
    × (sum run.timeouts + 5 ≡ 20)
    × (run.progress ≡ done (err (no_reply 2)))
into_future_silent_example = into_future_silent handle 5 accepting [] (λ n. refl) (omega arith)

into_future_answered_example :
    into_future handle 5 accepting (slept ∷ changed (peer_response acknowledgement) ∷ []) ≡ record {
      transmissions = packet ∷ packet ∷ [];
      timeouts = 5 ∷ 10 ∷ [];
      progress = done (ok tt);
    }
into_future_answered_example =
    into_future_answered handle 1 5 accepting (peer_response acknowledgement) (ok tt) [] (λ n. refl)
      (omega arith) (omega arith) refl

into_future_bounds_example :
    (length (into_future handle 5 accepting (slept ∷ [])).transmissions ≤ 2)
    × All (λ p. p ≡ packet) (into_future handle 5 accepting (slept ∷ [])).transmissions
    × ((into_future handle 5 accepting (slept ∷ [])).progress ≡ done (ok tt)
        → Member {A = Wake ℕ} (changed (peer_response acknowledgement)) (slept ∷ []))
into_future_bounds_example = into_future_bounds handle 5 accepting (slept ∷ [])
