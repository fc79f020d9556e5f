-- ===== src/Coap/Sample.antt =====
-- A packet of three header fields, which shows that the interface can be met.
use coap_server_rs.Base.{ℕ, refl}
use coap_server_rs.Coap.{Coap, MessageType, MessageClass, non_confirmable, empty}

pub record Header : Type 0 where
  pub id : ℕ
  pub kind : MessageType
  pub class : MessageClass

abbrev pub sample_coap : Coap
sample_coap = record {
  Packet = Header;
  new_packet = record { id = 0; kind = non_confirmable; class = empty };
  message_id = λ p. p.id;
  get_type = λ p. p.kind;
  code = λ p. p.class;
  set_message_id = λ n p. record p { id = n };
  set_type = λ t p. record p { kind = t };
  set_code = λ c p. record p { class = c };
  message_id-set_message_id = λ n p. refl;
  message_id-set_type = λ t p. refl;
  message_id-set_code = λ c p. refl;
  get_type-set_type = λ t p. refl;
  get_type-set_message_id = λ n p. refl;
  get_type-set_code = λ c p. refl;
  code-set_code = λ c p. refl;
  code-set_type = λ t p. refl;
  code-set_message_id = λ n p. refl;
}
