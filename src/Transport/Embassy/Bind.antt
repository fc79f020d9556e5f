-- ===== src/Transport/Embassy/Bind.antt =====
-- The builder and the binding of coap-server-embassy/src/transport/udp.rs. The binding passes each
-- call on to its framed socket.
use coap_server_rs.Base.{
  ℕ, Option, none, some, ◌++◌, ◌^◌, Result, ok, err, Text, codes, ltb, ltb_lt, if◌then◌else◌, ◌<◌,
  ◌≡◌, sym, ap, ◌∙◌, inl, inr, Bool-cases,
}
use coap_server_rs.Transport.{PacketCodec, ErrorOf, unspecified}
use coap_server_rs.Transport.Embassy.{BindError, UdpFramed, new_framed, resolved_mtu, map_bind_err}

pub record UdpTransport (A : Type 0) : Type 0 where
  pub address : A
  pub mtu : Option ℕ

pub record UdpBinding (Endpoint Local : Type 0) : Type 0 where
  pub framed_socket : UdpFramed Endpoint
  pub local_addr : Local
  pub mtu : ℕ

-- What the code takes from outside: the width of a `usize`, the decimal text of a number, and
-- `UdpSocket::bind` with the endpoint of the bound socket.
pub record Outside (A Local : Type 0) : Type 0 where
  pub usize_bits : ℕ
  pub to_text : ℕ → Text
  pub bind_socket : A → Result Local BindError

module _ {A : Type 0} where
  unfoldable pub new_transport : A → UdpTransport A
  new_transport address = record { address = address; mtu = none }

  abbrev pub set_mtu : ℕ → UdpTransport A → UdpTransport A
  set_mtu mtu self = record self { mtu = some mtu }

module _ (c : PacketCodec) {Endpoint Local : Type 0} where
  abbrev pub bound : ℕ → Result Local BindError → Result (UdpBinding Endpoint Local) (ErrorOf c)
  bound mtu (err e) = err (map_bind_err e)
  bound mtu (ok local) =
      ok (record { framed_socket = new_framed mtu; local_addr = local; mtu = mtu })

  bound_mtu :
      (mtu : ℕ) (local : Result Local BindError) (b : UdpBinding Endpoint Local)
      → bound mtu local ≡ ok b
      → (b.mtu ≡ mtu) × (b.framed_socket.capacity ≡ mtu)
  unfolding new_framed
  bound_mtu mtu (ok local) b h =
      let same : record { framed_socket = new_framed mtu; local_addr = local; mtu = mtu } ≡ b =
        cc in
      (ap (λ x. x.mtu) (sym same), ap (λ x. x.framed_socket.capacity) (sym same))
  bound_mtu mtu (err e) b h = absurd cc

module _ (c : PacketCodec) {A Endpoint Local : Type 0} where
  unfoldable pub bind :
      Outside A Local → UdpTransport A → Result (UdpBinding Endpoint Local) (ErrorOf c)
  unfolding resolved_mtu new_framed map_bind_err
  bind outside self =
      let mtu = resolved_mtu self.mtu in
      if ltb mtu (2 ^ outside.usize_bits)
      then bound c mtu (outside.bind_socket self.address)
      else err (unspecified (codes "unable to apply mtu of " ++ outside.to_text mtu ++ codes "!"))

  -- A binding reports the MTU that was set, or else 1152; the buffer that receives has just that
  -- size, so no datagram up to the MTU is cut off; and it fits the machine's `usize`.
  pub bind_lem :
      (outside : Outside A Local) (self : UdpTransport A) (b : UdpBinding Endpoint Local)
      → bind outside self ≡ ok b
      → (b.mtu ≡ resolved_mtu self.mtu)
        × (b.framed_socket.capacity ≡ b.mtu)
        × (b.mtu < 2 ^ outside.usize_bits)
  unfolding bind
  bind_lem outside self b h =
      elim (Bool-cases (ltb (resolved_mtu self.mtu) (2 ^ outside.usize_bits))) [
        | inl y ↦
            let made =
              bound_mtu c (resolved_mtu self.mtu) (outside.bind_socket self.address) b
                (rw (bind, y) at h) in
            (
              made.0,
              made.1 ∙ sym made.0,
              rw made.0 (ltb_lt (resolved_mtu self.mtu) (2 ^ outside.usize_bits) y),
            )
        | inr n ↦ absurd (let h' : err _ ≡ ok b = rw (bind, n) at h in cc)
      ]
