-- ===== src/Transport/Tokio/Multicast.antt =====
-- The multicast groups that udp.rs of the tokio transport joins.
use coap_server_rs.Base.{
  Option, none, some, List, [], ◌∷◌, ok, panicked, ◌≡◌, ◌≢◌, refl, sym, ap, ◌∙◌, ◌⊎◌, inl, inr, All,
  Option-cases, Result-cases,
}
use mathlib.Core.Path.{subst}
use coap_server_rs.Transport.Tokio.Udp.{
  IpAddr, SocketAddr, v4, v6, MulticastGroupJoin, ipv4, ipv6, MulticastJoiner, GroupCall, UdpSocket,
  ipv4_interface, default_joins, call_for, join_all, join_given, joins_of, map_addr,
  determine_default_joins, join_at, join,
}

abbrev or_default : List MulticastGroupJoin → SocketAddr → List MulticastGroupJoin
or_default [] addr = default_joins addr
or_default (j ∷ joins) addr = j ∷ joins

-- The groups that are to be joined: the custom ones, or else the default ones of the address.
abbrev pub wanted : MulticastJoiner → SocketAddr → List MulticastGroupJoin
wanted self addr = or_default self.custom_group_joins addr

joins_of-or_default :
    {IoErr : Type 0} (custom : List MulticastGroupJoin) (addr : SocketAddr)
    → joins_of {IoErr = IoErr} custom (ok (default_joins addr)) ≡ ok (or_default custom addr)
joins_of-or_default [] addr = refl
joins_of-or_default (j ∷ joins) addr = refl

module _ {IoErr : Type 0} (self : MulticastJoiner) (socket : UdpSocket IoErr) where
  -- Each join has its call, and the socket takes each call.
  abbrev pub AreJoined : Option IpAddr → List MulticastGroupJoin → List GroupCall → Type 0
  AreJoined ipv4_if [] [] = Unit {0}
  AreJoined ipv4_if (j ∷ joins) (call ∷ calls) =
      (call_for self ipv4_if j ≡ some call)
      × (socket.join_multicast call ≡ ok tt)
      × AreJoined ipv4_if joins calls
  AreJoined ipv4_if _ _ = ⊥

  join-wanted :
      (addr : SocketAddr)
      → socket.local_addr ≡ ok addr
      → join self socket ≡ join_all self socket (ipv4_interface addr) (wanted self addr)
  unfolding join determine_default_joins
  join-wanted addr a =
      let custom = self.custom_group_joins in
      ap (join_at self socket) a
      ∙ ap
          (λ d.
            join_given self socket (ipv4_interface addr)
              (joins_of custom (map_addr default_joins d)))
          a
      ∙ ap (join_given self socket (ipv4_interface addr)) (joins_of-or_default custom addr)

  join_all_calm :
      (ipv4_if : Option IpAddr) (joins : List MulticastGroupJoin)
      → All (λ j. call_for self ipv4_if j ≢ none) joins
      → (join_all self socket ipv4_if joins).outcome ≢ panicked
  unfolding join_all
  join_all_calm ipv4_if [] h = λ e. cc
  join_all_calm ipv4_if (j ∷ joins) h =
      let rest = join_all_calm ipv4_if joins h.1 in
      elim (Option-cases (call_for self ipv4_if j)) [
        | inl n ↦ absurd (h.0 n)
        | inr (call, c) ↦ elim (Result-cases (socket.join_multicast call)) [
          | inl (u, s) ↦ rw (join_all, c, s) rest
          | inr (e, s) ↦ rw (join_all, c, s) (λ q. cc)
        ]
      ]

  -- Some interface for an IPv4 group that names none.
  abbrev pub HasInterface : SocketAddr → Type 0
  HasInterface (v4 ip port) = Unit {0}
  HasInterface (v6 ip port) = self.default_ipv4_interface ≢ none

  call_for_some :
      (addr : SocketAddr) (j : MulticastGroupJoin)
      → HasInterface addr
      → call_for self (ipv4_interface addr) j ≢ none
  call_for_some addr (ipv6 group interface) h = λ e. cc
  call_for_some addr (ipv4 group (some interface)) h = λ e. cc
  call_for_some (v4 ip port) (ipv4 group none) h = elim (Option-cases self.default_ipv4_interface) [
    | inl n ↦ rw n (λ e. cc)
    | inr (i, s) ↦ rw s (λ e. cc)
  ]
  call_for_some (v6 ip port) (ipv4 group none) h = elim (Option-cases self.default_ipv4_interface) [
    | inl n ↦ absurd (h n)
    | inr (i, s) ↦ rw s (λ e. cc)
  ]

  joins_have_calls :
      (addr : SocketAddr) (joins : List MulticastGroupJoin)
      → HasInterface addr
      → All (λ j. call_for self (ipv4_interface addr) j ≢ none) joins
  joins_have_calls addr [] h = tt
  joins_have_calls addr (j ∷ joins) h = (call_for_some addr j h, joins_have_calls addr joins h)

  default_joins_some :
      (addr : SocketAddr)
      → All (λ j. call_for self (ipv4_interface addr) j ≢ none) (default_joins addr)
  default_joins_some (v4 ip port) = joins_have_calls (v4 ip port) (default_joins (v4 ip port)) tt
  default_joins_some (v6 ip port) = ((λ e. cc), ((λ e. cc), tt))

  -- Joining does not panic if there are no custom groups, if the socket has an IPv4 address, or if
  -- an interface for IPv4 groups has been set.
  pub join_calm :
      (addr : SocketAddr)
      → socket.local_addr ≡ ok addr
      → (self.custom_group_joins ≡ []) ⊎ HasInterface addr
      → (join self socket).outcome ≢ panicked
  join_calm addr a (inr h) = rw (join-wanted addr a) (
      join_all_calm (ipv4_interface addr) (wanted self addr)
        (joins_have_calls addr (wanted self addr) h))
  join_calm addr a (inl n) = rw (join-wanted addr a) (
      join_all_calm (ipv4_interface addr) (wanted self addr) (
        subst (λ l. All (λ j. call_for self (ipv4_interface addr) j ≢ none) (or_default l addr))
          (sym n) (default_joins_some addr)))
