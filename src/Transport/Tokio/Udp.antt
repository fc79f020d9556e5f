-- ===== src/Transport/Tokio/Udp.antt =====
-- coap-server-tokio/src/transport/udp.rs: the builder of the transport, the multicast groups that it
-- joins, and the binding. The socket's answers are an argument; an address is the list of its parts.
use coap_server_rs.Base.{
  ℕ, Bool, true, false, Option, none, some, List, [], ◌∷◌, ◌++◌, Result, ok, err, Outcome, returned,
  panicked, if◌then◌else◌,
}
use coap_server_rs.Transport.{PacketCodec, ErrorOf, io_error}
use coap_server_rs.Transport.Tokio.Framed.{UdpFramed, new_framed}

abbrev pub IpAddr : Type 0
IpAddr = List ℕ

pub data SocketAddr : Type 0 where
  v4 v6 : IpAddr → ℕ → SocketAddr

pub data MulticastGroupJoin : Type 0 where
  ipv4 : IpAddr → Option IpAddr → MulticastGroupJoin
  ipv6 : IpAddr → Option ℕ → MulticastGroupJoin

pub record MulticastJoiner : Type 0 where
  pub custom_group_joins : List MulticastGroupJoin
  pub default_ipv4_interface : Option IpAddr
  pub default_ipv6_interface : Option ℕ

pub record UdpTransport (A : Type 0) : Type 0 where
  pub addresses : A
  pub mtu : Option ℕ
  pub multicast : Bool
  pub multicast_joiner : MulticastJoiner

module _ {A : Type 0} where
  unfoldable pub new_transport : A → UdpTransport A
  new_transport addresses = record {
    addresses = addresses;
    mtu = none;
    multicast = false;
    multicast_joiner = record {
      custom_group_joins = [];
      default_ipv4_interface = none;
      default_ipv6_interface = none;
    };
  }

  abbrev pub set_mtu : ℕ → UdpTransport A → UdpTransport A
  set_mtu mtu self = record self { mtu = some mtu }

  abbrev pub enable_multicast : UdpTransport A → UdpTransport A
  enable_multicast self = record self { multicast = true }

  abbrev pub set_multicast_default_ipv4_interface : IpAddr → UdpTransport A → UdpTransport A
  set_multicast_default_ipv4_interface interface self = record self {
    multicast_joiner = record self.multicast_joiner { default_ipv4_interface = some interface };
  }

  abbrev pub set_multicast_default_ipv6_interface : ℕ → UdpTransport A → UdpTransport A
  set_multicast_default_ipv6_interface interface self = record self {
    multicast_joiner = record self.multicast_joiner { default_ipv6_interface = some interface };
  }

  abbrev pub add_multicast_join : MulticastGroupJoin → UdpTransport A → UdpTransport A
  add_multicast_join join self = record self {
    multicast_joiner = record self.multicast_joiner {
      custom_group_joins = self.multicast_joiner.custom_group_joins ++ join ∷ [];
    };
  }

-- A group and the interface on which the socket is told to join it.
pub data GroupCall : Type 0 where
  join_multicast_v4 : IpAddr → IpAddr → GroupCall
  join_multicast_v6 : IpAddr → ℕ → GroupCall

pub record UdpSocket (IoErr : Type 0) : Type 0 where
  pub local_addr : Result SocketAddr IoErr
  pub join_multicast : GroupCall → Result (Unit {0}) IoErr

-- What joining did: the calls of the socket, and how it ended.
pub record Joined (IoErr : Type 0) : Type 0 where
  pub calls : List GroupCall
  pub outcome : Outcome (Result (Unit {0}) IoErr)

abbrev or_option : {A : Type 0} → Option A → Option A → Option A
or_option (some a) b = some a
or_option none b = b

abbrev unwrap_or_zero : Option ℕ → ℕ
unwrap_or_zero (some n) = n
unwrap_or_zero none = 0

abbrev pub ipv4_interface : SocketAddr → Option IpAddr
ipv4_interface (v4 ip port) = some ip
ipv4_interface (v6 ip port) = none

abbrev pub default_joins : SocketAddr → List MulticastGroupJoin
default_joins (v4 ip port) = ipv4 (224 ∷ 0 ∷ 1 ∷ 187 ∷ []) none ∷ []
default_joins (v6 ip port) =
    ipv6 (0xff02 ∷ 0 ∷ 0 ∷ 0 ∷ 0 ∷ 0 ∷ 0 ∷ 0xfd ∷ []) none
    ∷ ipv6 (0xff05 ∷ 0 ∷ 0 ∷ 0 ∷ 0 ∷ 0 ∷ 0 ∷ 0xfd ∷ []) none
    ∷ []

-- The call for a join; an IPv4 group without any interface has none, and there the `unwrap` panics.
abbrev pub call_for : MulticastJoiner → Option IpAddr → MulticastGroupJoin → Option GroupCall
call_for self ipv4_if (ipv4 addr interface) =
    elim (or_option (or_option interface self.default_ipv4_interface) ipv4_if) [
      | some resolved ↦ some (join_multicast_v4 addr resolved)
      | none ↦ none
    ]
call_for self ipv4_if (ipv6 addr interface) =
    some (join_multicast_v6 addr (unwrap_or_zero (or_option interface self.default_ipv6_interface)))

module _ {IoErr : Type 0} where
  abbrev pub map_addr :
      (SocketAddr → List MulticastGroupJoin)
      → Result SocketAddr IoErr
      → Result (List MulticastGroupJoin) IoErr
  map_addr f (ok addr) = ok (f addr)
  map_addr f (err e) = err e

  unfoldable pub determine_default_joins : UdpSocket IoErr → Result (List MulticastGroupJoin) IoErr
  determine_default_joins socket = map_addr default_joins socket.local_addr

  abbrev join_ended : Outcome (Result (Unit {0}) IoErr) → Joined IoErr
  join_ended outcome = record { calls = []; outcome = outcome }

  abbrev join_called : GroupCall → Joined IoErr → Joined IoErr
  join_called call rest = record { calls = call ∷ rest.calls; outcome = rest.outcome }

  -- The loop over the joins.
  unfoldable pub join_all :
      MulticastJoiner → UdpSocket IoErr → Option IpAddr → List MulticastGroupJoin → Joined IoErr
  join_all self socket ipv4_if [] = join_ended (returned (ok tt))
  join_all self socket ipv4_if (join ∷ joins) =
      let rest = join_all self socket ipv4_if joins in
      elim (call_for self ipv4_if join) [
        | none ↦ join_ended panicked
        | some call ↦ elim (socket.join_multicast call) [
          | ok _ ↦ join_called call rest
          | err e ↦ join_called call (join_ended (returned (err e)))
        ]
      ]

  abbrev pub join_given :
      MulticastJoiner
      → UdpSocket IoErr
      → Option IpAddr
      → Result (List MulticastGroupJoin) IoErr
      → Joined IoErr
  join_given self socket ipv4_if (ok joins) = join_all self socket ipv4_if joins
  join_given self socket ipv4_if (err e) = join_ended (returned (err e))

  -- The custom joins, or the default ones if there are none.
  abbrev pub joins_of :
      List MulticastGroupJoin
      → Result (List MulticastGroupJoin) IoErr
      → Result (List MulticastGroupJoin) IoErr
  joins_of [] defaults = defaults
  joins_of (join ∷ joins) defaults = ok (join ∷ joins)

  abbrev pub join_at : MulticastJoiner → UdpSocket IoErr → Result SocketAddr IoErr → Joined IoErr
  join_at self socket (err e) = join_ended (returned (err e))
  join_at self socket (ok addr) =
      join_given self socket (ipv4_interface addr)
        (joins_of self.custom_group_joins (determine_default_joins socket))

  unfoldable pub join : MulticastJoiner → UdpSocket IoErr → Joined IoErr
  unfolding join_all determine_default_joins
  join self socket = join_at self socket socket.local_addr

pub record UdpBinding : Type 0 where
  pub framed_socket : UdpFramed SocketAddr
  pub local_addr : SocketAddr
  pub mtu : Option ℕ

module _ (c : PacketCodec) {A : Type 0} where
  abbrev pub bound : UdpTransport A → Result SocketAddr c.IoErr → Result UdpBinding (ErrorOf c)
  bound self (err e) = err (io_error (some e))
  bound self (ok addr) = ok (record {
    framed_socket = new_framed (v4 (0 ∷ 0 ∷ 0 ∷ 0 ∷ []) 0);
    local_addr = addr;
    mtu = self.mtu;
  })

  abbrev pub after_join :
      UdpTransport A
      → UdpSocket c.IoErr
      → Outcome (Result (Unit {0}) c.IoErr)
      → Outcome (Result UdpBinding (ErrorOf c))
  after_join self socket panicked = panicked
  after_join self socket (returned (err e)) = returned (err (io_error (some e)))
  after_join self socket (returned (ok _)) = returned (bound self socket.local_addr)

  abbrev pub bind_socket :
      UdpTransport A
      → Result (UdpSocket c.IoErr) c.IoErr
      → List GroupCall × Outcome (Result UdpBinding (ErrorOf c))
  bind_socket self (err e) = ([], returned (err (io_error (some e))))
  bind_socket self (ok socket) =
      let joined = join self.multicast_joiner socket in
      if self.multicast
      then (joined.calls, after_join self socket joined.outcome)
      else ([], returned (bound self socket.local_addr))

  -- `bind_to` is `UdpSocket::bind`.
  unfoldable pub bind :
      (A → Result (UdpSocket c.IoErr) c.IoErr)
      → UdpTransport A
      → List GroupCall × Outcome (Result UdpBinding (ErrorOf c))
  unfolding join
  bind bind_to self = bind_socket self (bind_to self.addresses)
