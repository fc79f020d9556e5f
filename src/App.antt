-- ===== src/App.antt =====
-- coap-server/src/app: the builders of resources and of the app (resource_builder.rs,
-- app_builder.rs), what app_handler.rs makes of them, and the keys of request_type_key.rs. `H` is the
-- type of request handlers, `O` of observable resources and `Value` of the values of link attributes.
pub mod Assemble
pub mod Laws
pub mod Packets
pub mod Core
pub mod Route
pub mod Request
pub mod Link
pub mod Listing
pub mod Answer
pub mod Served
pub mod Methods
mod Tests
mod PacketTests
mod ServedTests
mod LinkTests
use coap_server_rs.Base.{
  ℕ, Bool, true, false, Option, none, some, List, [], ◌∷◌, ◌++◌, map, Dict, get, insert, extend,
  nat_eq, list_eq, PartialEq, ◌==◌, ◌≡◌, ◌↔◌, arith, Text, codes, Result, ok, err, if◌then◌else◌,
  drop, ltb, ◌^◌,
}
use coap_server_rs.Coap.{
  RequestType, get as get_type, post as post_type, put as put_type, delete as delete_type,
  fetch as fetch_type, patch as patch_type, ipatch as ipatch_type,
}
use coap_server_rs.Errors.{CoapError, bad_request, not_found, method_not_allowed}
use coap_server_rs.PathMatcher.{PathMatcher, MatchedResult, from_path_strings, lookup}

pub record RequestTypeKey : Type 0 where
  pub number : ℕ

abbrev pub type_key_beq : RequestTypeKey → RequestTypeKey → Bool
type_key_beq a b = a.number == b.number

pub type_key_beq_iff : (a b : RequestTypeKey) → (a ≡ b) ↔ (type_key_beq a b ≡ true)
type_key_beq_iff a b = ground (arith, nat_eq.eq_iff a.number b.number)

instance abbrev pub type_key_eq : PartialEq RequestTypeKey
type_key_eq = record { eq = type_key_beq; eq_iff = type_key_beq_iff }

abbrev pub request_type_key : RequestType → RequestTypeKey
request_type_key get_type = record { number = 1 }
request_type_key post_type = record { number = 2 }
request_type_key put_type = record { number = 3 }
request_type_key delete_type = record { number = 4 }
request_type_key fetch_type = record { number = 5 }
request_type_key patch_type = record { number = 6 }
request_type_key ipatch_type = record { number = 7 }
request_type_key _ = record { number = 0 }

abbrev pub new_match_all : RequestTypeKey
new_match_all = record { number = 0 }

pub record ConfigBuilder : Type 0 where
  pub discoverable : Option Bool
  pub block_transfer : Option Bool

abbrev pub default_config : ConfigBuilder
default_config = record { discoverable = none; block_transfer = none }

pub record CoreLink (Value : Type 0) : Type 0 where
  pub path : Text
  pub attributes : List (Text × Value)

pub record DiscoverableResource : Type 0 where
  pub link_str : Text
  pub attributes_as_string : Dict Text Text

pub record ResourceBuilder (H O Value : Type 0) : Type 0 where
  pub path : Text
  pub config : ConfigBuilder
  pub attributes : CoreLink Value
  pub handlers : Dict RequestTypeKey H
  pub observable : Option O

-- The observe handler is for the path and the resource, and the block handler is known by the size
-- of its messages.
pub record ResourceHandler (H O : Type 0) : Type 0 where
  pub handlers : Dict RequestTypeKey H
  pub observe_handler : Option (Text × O)
  pub block_handler : Option ℕ

pub record Resource (H O : Type 0) : Type 0 where
  pub path : Text
  pub discoverable : Option DiscoverableResource
  pub handler : ResourceHandler H O

pub record AppBuilder (H O Value : Type 0) : Type 0 where
  pub config : ConfigBuilder
  pub resources : List (ResourceBuilder H O Value)

-- The retransmission manager is a component of its own.
pub record AppHandler (H O : Type 0) : Type 0 where
  pub error_block_handler : ℕ
  pub handlers_by_path : PathMatcher (ResourceHandler H O)

module _ {H O Value : Type 0} where
  unfoldable pub new_resource : Text → ResourceBuilder H O Value
  new_resource path = record {
    path = path;
    config = default_config;
    attributes = record { path = path; attributes = [] };
    handlers = [];
    observable = none;
  }

  abbrev pub resource_not_discoverable : ResourceBuilder H O Value → ResourceBuilder H O Value
  resource_not_discoverable self = record self {
    config = record self.config { discoverable = some false };
  }

  abbrev pub resource_disable_block_transfer : ResourceBuilder H O Value → ResourceBuilder H O Value
  resource_disable_block_transfer self = record self {
    config = record self.config { block_transfer = some false };
  }

  abbrev pub link_attr : Text → Value → ResourceBuilder H O Value → ResourceBuilder H O Value
  link_attr name value self = record self {
    attributes = record self.attributes {
      attributes = self.attributes.attributes ++ (name, value) ∷ [];
    };
  }

  -- `handler`, by which the methods for the request types and the default one set theirs.
  unfoldable pub handler :
      RequestTypeKey → H → ResourceBuilder H O Value → ResourceBuilder H O Value
  unfolding insert
  handler key h self = record self { handlers = insert key h self.handlers }

  abbrev pub method_handler :
      RequestType → H → ResourceBuilder H O Value → ResourceBuilder H O Value
  method_handler request_type h self = handler (request_type_key request_type) h self

  abbrev pub default_handler : H → ResourceBuilder H O Value → ResourceBuilder H O Value
  default_handler h self = handler new_match_all h self

  -- `unit_value` is `()` as a value, and the attribute's name is the message library's.
  abbrev pub observable : Text → Value → O → ResourceBuilder H O Value → ResourceBuilder H O Value
  observable link_attr_observable unit_value o self =
      link_attr link_attr_observable unit_value (record self { observable = some o })

  unfoldable pub new_app : AppBuilder H O Value
  new_app = record { config = default_config; resources = [] }

  abbrev pub set_discoverable : Bool → AppBuilder H O Value → AppBuilder H O Value
  set_discoverable on self = record self { config = record self.config { discoverable = some on } }

  abbrev pub set_block_transfer : Bool → AppBuilder H O Value → AppBuilder H O Value
  set_block_transfer on self = record self {
    config = record self.config { block_transfer = some on };
  }

  abbrev pub add_resource : ResourceBuilder H O Value → AppBuilder H O Value → AppBuilder H O Value
  add_resource resource self = record self { resources = self.resources ++ resource ∷ [] }
