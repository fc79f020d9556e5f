-- ===== src/Retransmission/Params.antt =====
-- `TransmissionParameters` of retransmission_manager.rs. `f32` enters as an interface: its order
-- against 1.0, and `Duration::mul_f32`.
use coap_server_rs.Base.{
  ℕ, ◌*◌, ◌^◌, ◌<◌, ◌≡◌, ◌↔◌, arith, false, Bool, Result, ok, err, if◌then◌else◌, nat_beq,
}

pub record Float32 : Type 1 where
  pub F32 : Type 0
  pub one : F32
  pub one_and_half : F32
  pub lt : F32 → F32 → Bool
  pub ne : F32 → F32 → Bool
  pub mul_f32 : ℕ → F32 → ℕ

pub data ParamsError (F : Type 0) : Type 0 where
  invalid_ack_random_factor : F → ParamsError F
  invalid_ack_timeout : ℕ → ParamsError F

pub record TransmissionParameters (F : Type 0) : Type 0 where
  pub ack_timeout : ℕ
  pub ack_random_factor : F
  pub max_retransmit : ℕ

module _ (f : Float32) where
  open f use {F32, one, one_and_half, lt, ne, mul_f32}

  unfoldable pub default_parameters : TransmissionParameters F32
  default_parameters = record {
    ack_timeout = 2 * 10 ^ 9;
    ack_random_factor = one_and_half;
    max_retransmit = 4;
  }

  unfoldable pub new_parameters :
      ℕ → F32 → ℕ → Result (TransmissionParameters F32) (ParamsError F32)
  new_parameters ack_timeout ack_random_factor max_retransmit =
      if lt ack_random_factor one
      then err (invalid_ack_random_factor ack_random_factor)
      else if nat_beq ack_timeout 0
      then err (invalid_ack_timeout ack_timeout)
      else ok (record {
        ack_timeout = ack_timeout;
        ack_random_factor = ack_random_factor;
        max_retransmit = max_retransmit;
      })

  -- The two ends of the inclusive range.
  unfoldable pub ack_timeout_range : TransmissionParameters F32 → ℕ × ℕ
  ack_timeout_range p =
      if ne p.ack_random_factor one
      then (p.ack_timeout, mul_f32 p.ack_timeout p.ack_random_factor)
      else (p.ack_timeout, p.ack_timeout)

  -- Parameters are accepted exactly when the random factor is not below 1.0 and the timeout is not
  -- zero; they are then stored unchanged, and the range of first timeouts starts at the timeout.
  pub new_parameters_iff :
      (ack_timeout : ℕ) (factor : F32) (max_retransmit : ℕ) (p : TransmissionParameters F32)
      → (new_parameters ack_timeout factor max_retransmit ≡ ok p) ↔ (
          (lt factor one ≡ false)
          × (0 < ack_timeout)
          × (p ≡ record {
            ack_timeout = ack_timeout;
            ack_random_factor = factor;
            max_retransmit = max_retransmit;
          })
          × ((ack_timeout_range p).0 ≡ ack_timeout))
  unfolding new_parameters ack_timeout_range
  new_parameters_iff ack_timeout factor max_retransmit p =
      (λ e. (ground arith, ground arith, ground arith, ground arith), λ h. ground arith)
