-- ===== src/App/PacketTests.antt =====
-- A ping, and a listing that is filtered, with the theorems applied there.
use coap_server_rs.Base.{ℕ, ◌≡◌, refl, true, [], ◌∷◌, Dict, nat_eq, list_eq, Text, codes}
use coap_server_rs.Coap.{empty, confirmable, reset, content}
use coap_server_rs.Coap.Sample.{Header, sample_coap}
use coap_server_rs.Retransmission.Manager.{RetransmissionManager}
use coap_server_rs.App.{DiscoverableResource}
use coap_server_rs.App.Packets.{handle_packet}
use coap_server_rs.App.Core.{handle_core}

abbrev manager : RetransmissionManager ℕ ℕ ℕ
manager = record {
  next_message_id = 7;
  unacknowledged_messages = [];
  parameters = record { ack_timeout = 5; ack_random_factor = 10; max_retransmit = 1 };
}

abbrev ping : Header
ping = record { id = 77; kind = confirmable; class = empty }

test_ping :
    (handle_packet sample_coap (λ _. true) true manager ping 1).outgoing
    ≡ record { id = 77; kind = reset; class = empty } ∷ []
unfolding handle_packet
test_ping = refl

abbrev lamp : DiscoverableResource
lamp = record {
  link_str = codes "</lamp>";
  attributes_as_string = (codes "rt", codes "light") ∷ [];
}

abbrev door : DiscoverableResource
door = record { link_str = codes "</door>"; attributes_as_string = [] }

abbrev query : Dict Text Text
query = (codes "rt", codes "light") ∷ []

test_handle_core : handle_core (door ∷ lamp ∷ []) query ≡ (codes "</lamp>", content)
unfolding handle_core
test_handle_core = refl

test_all : handle_core (door ∷ lamp ∷ []) [] ≡ (codes "</door>\n</lamp>", content)
unfolding handle_core
test_all = refl
