-- ===== src/Query.antt =====
-- coap-server/src/app/coap_utils.rs: the reply to a ping, and the query options of a request.
-- A `String` is its UTF-8 bytes.
pub mod Laws
mod Tests
use coap_server_rs.Base.{
  ℕ, Option, none, some, List, [], ◌∷◌, ◌++◌, map, Result, ok, err, Text, codes, split_on, is_utf8,
  Dict, extend, insert, nat_eq, list_eq, if◌then◌else◌,
}
use coap_server_rs.Coap.{Coap, reset, empty}
use coap_server_rs.Errors.{CoapError, bad_request}

module _ (c : Coap) where
  open c use {Packet, new_packet, message_id, set_type, set_code, set_message_id}

  unfoldable pub new_pong_message : Packet → Packet
  new_pong_message ping =
      set_message_id (message_id ping) (set_code empty (set_type reset new_packet))

pub record OptionValueQuery : Type 0 where
  pub key : Text
  pub value : Text

-- `format!("{}={}", key, value).into_bytes()`
unfoldable pub to_bytes : OptionValueQuery → Text
to_bytes q = q.key ++ b'=' ∷ q.value

-- The description that `from_utf8`'s error adds to its message is left out.
abbrev checked_utf8 : Text → Text → Result Text CoapError
checked_utf8 what bytes = if is_utf8 bytes then ok bytes else err (bad_request what)

abbrev query_of : Text → Text → Result OptionValueQuery CoapError
query_of key_vec value_vec = elim (checked_utf8 (codes "Key is not UTF-8") key_vec) [
  | err e ↦ err e
  | ok key ↦ elim (checked_utf8 (codes "Value is not UTF-8") value_vec) [
    | err e ↦ err e
    | ok value ↦ ok (record { key = key; value = value })
  ]
]

-- The first two parts of the split at '='; the parts after them are dropped. A split is never
-- empty, so the first `unwrap` cannot fail.
abbrev from_parts : List Text → Result OptionValueQuery CoapError
from_parts (key_vec ∷ value_vec ∷ rest) = query_of key_vec value_vec
from_parts _ = err (bad_request (codes "Missing '=', not a valid query string"))

unfoldable pub do_try_from : Text → Result OptionValueQuery CoapError
unfolding split_on is_utf8
do_try_from value = from_parts (split_on b'=' value)

abbrev parsed : List Text → List (Text × Text)
parsed [] = []
parsed (v ∷ vs) = elim (do_try_from v) [ ok q ↦ (q.key, q.value) ∷ parsed vs | err e ↦ parsed vs ]

-- From the request's Uri-Query options, `none` when it has none: a malformed one is skipped, and
-- of a repeated key the last value counts.
unfoldable pub request_get_queries : Option (List Text) → Dict Text Text
unfolding extend insert do_try_from
request_get_queries none = []
request_get_queries (some options) = extend (parsed options) []
