-- ===== src/Retransmission/Send/Attempts.antt =====
-- How many times a packet is sent, how long the waits are, and what ends a send.
use native.Mathlib.Nat.{pow-suc}
use coap_server_rs.Base.{
  ℕ, zero, suc, ◌+◌, ◌*◌, ◌^◌, ◌≤◌, ◌<◌, ◌≡◌, refl, Bool, true, some, List, [], ◌∷◌, ◌++◌, Result,
  ok, err, arith, All, length, replicate, sum, Member, inl, inr, ◌⊎◌, Option-cases, ap, sym,
}
use coap_server_rs.Coap.{acknowledgement, reset, confirmable, non_confirmable}
use coap_server_rs.Retransmission.{
  ReplyEvent, nothing, internal_error, peer_response, SendFailed, no_reply,
}
use coap_server_rs.Retransmission.Manager.{SendReliably}
use coap_server_rs.Retransmission.Send.{
  duration_max, Wake, changed, slept, Waited, finished, timed_out, waiting, done, reply_result,
  wait_reply, attempts, into_future,
}

-- Timeouts that double.
abbrev pub backoff : ℕ → ℕ → List ℕ
backoff zero t = []
backoff (suc n) t = t ∷ backoff n (t * 2)

abbrev Fits : ℕ → ℕ → Type 0
Fits n t = All (λ d. d * 2 ≤ duration_max) (backoff n t)

pow_two-pos : (n : ℕ) → 1 ≤ 2 ^ n
pow_two-pos zero = omega arith
pow_two-pos (suc n) = rw pow-suc (omega (arith, pow_two-pos n))

double-pow : (n t : ℕ) → t * 2 ^ suc n ≡ t * 2 * 2 ^ n
double-pow n t = rw pow-suc (omega arith)

le-mul-pow : (n d : ℕ) → d ≤ d * 2 ^ n
le-mul-pow n d = grind (arith, pow_two-pos n)

backoff-Fits : (n t : ℕ) → t * 2 ^ n ≤ duration_max → Fits n t
backoff-Fits zero t h = tt
backoff-Fits (suc n) t h =
    let fits : t * 2 * 2 ^ n ≤ duration_max = rw double-pow at h in
    (omega (arith, le-mul-pow n (t * 2)), backoff-Fits n (t * 2) fits)

sum-backoff : (n t : ℕ) → sum (backoff n t) + t ≡ t * 2 ^ n
sum-backoff zero t = omega arith
sum-backoff (suc n) t = omega (arith, sum-backoff n (t * 2), double-pow n t)

module _ {Endpoint : Type 0} where
  Waited-cases :
      (w : Waited Endpoint)
      → ((r : Result (Unit {0}) (SendFailed Endpoint)) × (w ≡ finished r))
        ⊎ ((rest : List (Wake Endpoint)) × (w ≡ timed_out rest))
        ⊎ (w ≡ waiting)
  Waited-cases (finished r) = inl (r, refl)
  Waited-cases (timed_out rest) = inr (inl (rest, refl))
  Waited-cases waiting = inr (inr refl)

  abbrev acknowledged : Wake Endpoint
  acknowledged = changed (peer_response acknowledgement)

  reply_result-ok :
      (event : ReplyEvent Endpoint)
      → reply_result event ≡ some (ok tt)
      → event ≡ peer_response acknowledgement
  reply_result-ok nothing e = cc
  reply_result-ok (peer_response acknowledgement) e = refl
  reply_result-ok (peer_response reset) e = cc
  reply_result-ok (peer_response confirmable) e = cc
  reply_result-ok (peer_response non_confirmable) e = cc
  reply_result-ok (internal_error t) e = cc

  wait_reply-ok :
      (wakes : List (Wake Endpoint))
      → wait_reply wakes ≡ finished (ok tt)
      → Member acknowledged wakes
  unfolding wait_reply
  wait_reply-ok [] e = cc
  wait_reply-ok (slept ∷ wakes) e = cc
  wait_reply-ok (changed event ∷ wakes) e = elim (Option-cases (reply_result event)) [
    | inl n ↦ inr (wait_reply-ok wakes (rw (n, wait_reply) at e))
    | inr (r, f) ↦ inl (ap changed (sym (reply_result-ok event (ground arith))))
  ]

  wait_reply_rest :
      (wakes rest : List (Wake Endpoint)) (w : Wake Endpoint)
      → wait_reply wakes ≡ timed_out rest
      → Member w rest
      → Member w wakes
  unfolding wait_reply
  wait_reply_rest [] rest w e h = cc
  wait_reply_rest (slept ∷ wakes) rest w e h = ground arith
  wait_reply_rest (changed event ∷ wakes) rest w e h = elim (Option-cases (reply_result event)) [
    | inl n ↦ inr (wait_reply_rest wakes rest w (rw (n, wait_reply) at e) h)
    | inr (r, f) ↦ ground arith
  ]

module _ {Endpoint Packet : Type 0} (packet : Packet) (max_retransmit : ℕ)
    (accepts : ℕ → Bool) where
  silent_attempts :
      (left attempt timeout : ℕ) (rest : List (Wake Endpoint))
      → ((n : ℕ) → accepts n ≡ true)
      → Fits left timeout
      → attempts packet max_retransmit accepts left attempt timeout (replicate left slept ++ rest)
        ≡ record {
          transmissions = replicate left packet;
          timeouts = backoff left timeout;
          progress = done (err (no_reply (suc max_retransmit)));
        }
  unfolding attempts
  silent_attempts zero attempt timeout rest a f = refl
  silent_attempts (suc left) attempt timeout rest a f =
      ground (arith, a attempt, silent_attempts left (attempt + 1) (timeout * 2) rest a f.1)

  answered_attempts :
      (k left attempt timeout : ℕ) (event : ReplyEvent Endpoint)
      (result : Result (Unit {0}) (SendFailed Endpoint)) (rest : List (Wake Endpoint))
      → ((n : ℕ) → accepts n ≡ true)
      → k < left
      → Fits left timeout
      → reply_result event ≡ some result
      → attempts packet max_retransmit accepts left attempt timeout
          (replicate k slept ++ changed event ∷ rest)
        ≡ record {
          transmissions = replicate (suc k) packet;
          timeouts = backoff (suc k) timeout;
          progress = done result;
        }
  unfolding attempts
  answered_attempts k zero attempt timeout event result rest a lt f e = absurd (omega arith)
  answered_attempts zero (suc left) attempt timeout event result rest a lt f e =
      ground (arith, a attempt)
  answered_attempts (suc k) (suc left) attempt timeout event result rest a lt f e = ground (
    arith,
    a attempt,
    answered_attempts k left (attempt + 1) (timeout * 2) event result rest a (omega arith) f.1 e,
  )

  bounded_attempts :
      (left attempt timeout : ℕ) (wakes : List (Wake Endpoint))
      → (length (attempts packet max_retransmit accepts left attempt timeout wakes).transmissions
          ≤ left)
        × All
            (λ p. p ≡ packet)
            (attempts packet max_retransmit accepts left attempt timeout wakes).transmissions
  unfolding attempts
  bounded_attempts zero attempt timeout wakes = (omega arith, tt)
  bounded_attempts (suc left) attempt timeout wakes = elim (Waited-cases (wait_reply wakes)) [
    | inl (r, w) ↦ ground arith
    | inr (inl (rest, w)) ↦ ground (arith, bounded_attempts left (attempt + 1) (timeout * 2) rest)
    | inr (inr w) ↦ ground arith
  ]

  acknowledged_attempts :
      (left attempt timeout : ℕ) (wakes : List (Wake Endpoint))
      → (attempts packet max_retransmit accepts left attempt timeout wakes).progress ≡ done (ok tt)
      → Member (changed (peer_response acknowledgement)) wakes
  unfolding attempts
  acknowledged_attempts zero attempt timeout wakes e = cc
  acknowledged_attempts (suc left) attempt timeout wakes e =
      elim (Waited-cases (wait_reply wakes)) [
        | inl (r, w) ↦ wait_reply-ok wakes (ground arith)
        | inr (inl (rest, w)) ↦
            wait_reply_rest wakes rest acknowledged w
              (acknowledged_attempts left (attempt + 1) (timeout * 2) rest (ground arith))
        | inr (inr w) ↦ ground arith
      ]

module _ {Endpoint Tx F Packet : Type 0} (self : SendReliably Endpoint Tx F Packet) where
  open self use {parameters}

  -- If no reply comes while the packet channel takes every attempt, and the timeouts fit a
  -- `Duration`, the packet is sent `max_retransmit + 1` times, each wait is twice as long as the
  -- one before, all waits together last `first * (2 ^ (max_retransmit + 1) - 1)`, and the send
  -- fails with `NoReply(max_retransmit + 1)`.
  pub into_future_silent :
      (first_timeout : ℕ) (accepts : ℕ → Bool) (rest : List (Wake Endpoint))
      → ((n : ℕ) → accepts n ≡ true)
      → first_timeout * 2 ^ suc parameters.max_retransmit ≤ duration_max
      → let run =
          into_future self first_timeout accepts
            (replicate (suc parameters.max_retransmit) slept ++ rest) in
        (run.transmissions ≡ replicate (suc parameters.max_retransmit) self.packet)
        × (run.timeouts ≡ backoff (suc parameters.max_retransmit) first_timeout)
        × (sum run.timeouts + first_timeout ≡ first_timeout * 2 ^ suc parameters.max_retransmit)
        × (run.progress ≡ done (err (no_reply (suc parameters.max_retransmit))))
  unfolding into_future
  into_future_silent first_timeout accepts rest a h =
      rw
        (silent_attempts self.packet parameters.max_retransmit accepts
          (suc parameters.max_retransmit) 0 first_timeout rest a (backoff-Fits _ first_timeout h))
        (refl, refl, sum-backoff (suc parameters.max_retransmit) first_timeout, refl)

  -- A reply that comes in the wait after `k` timeouts, `k` at most `max_retransmit`, ends the send
  -- with its result, an acknowledgement with success, after `k + 1` transmissions of the packet.
  pub into_future_answered :
      (k first_timeout : ℕ) (accepts : ℕ → Bool) (event : ReplyEvent Endpoint)
      (result : Result (Unit {0}) (SendFailed Endpoint)) (rest : List (Wake Endpoint))
      → ((n : ℕ) → accepts n ≡ true)
      → k ≤ parameters.max_retransmit
      → first_timeout * 2 ^ suc parameters.max_retransmit ≤ duration_max
      → reply_result event ≡ some result
      → into_future self first_timeout accepts (replicate k slept ++ changed event ∷ rest)
        ≡ record {
          transmissions = replicate (suc k) self.packet;
          timeouts = backoff (suc k) first_timeout;
          progress = done result;
        }
  unfolding into_future
  into_future_answered k first_timeout accepts event result rest a le h e =
      answered_attempts self.packet parameters.max_retransmit accepts k
        (suc parameters.max_retransmit) 0 first_timeout event result rest a (omega arith)
        (backoff-Fits _ first_timeout h) e

  -- Whatever the runtime does, only the prepared packet is sent, at most `max_retransmit + 1`
  -- times, and the send succeeds only if an acknowledgement reached its channel.
  pub into_future_bounds :
      (first_timeout : ℕ) (accepts : ℕ → Bool) (wakes : List (Wake Endpoint))
      → let run = into_future self first_timeout accepts wakes in
        (length run.transmissions ≤ suc parameters.max_retransmit)
        × All (λ p. p ≡ self.packet) run.transmissions
        × (run.progress ≡ done (ok tt) → Member (changed (peer_response acknowledgement)) wakes)
  unfolding into_future
  into_future_bounds first_timeout accepts wakes =
      let n = suc parameters.max_retransmit in
      let b =
        bounded_attempts self.packet parameters.max_retransmit accepts n 0 first_timeout wakes in
      (
        b.0,
        b.1,
        acknowledged_attempts self.packet parameters.max_retransmit accepts n 0 first_timeout wakes,
      )
