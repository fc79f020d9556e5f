-- ===== src/App/Assemble.antt =====
-- What app_handler.rs makes of an app's builder, with `build` of resource_builder.rs, core_link.rs and
-- block_handler_util.rs.
use coap_server_rs.Base.{
  ℕ, Bool, true, false, Option, none, some, List, [], ◌∷◌, ◌++◌, map, Dict, insert, extend, nat_eq,
  list_eq, Text, codes, if◌then◌else◌, ltb, ◌^◌,
}
use coap_server_rs.Coap.{get as get_type}
use coap_server_rs.PathMatcher.{from_path_strings}
use coap_server_rs.App.{
  type_key_eq, CoreLink, DiscoverableResource, ResourceBuilder, ResourceHandler, Resource,
  AppBuilder, AppHandler, new_resource, handler, method_handler,
}

abbrev pub unwrap_or : {A : Type 0} → A → Option A → A
unwrap_or a none = a
unwrap_or a (some b) = b

abbrev pub option_map : {A B : Type 0} → (A → B) → Option A → Option B
option_map f none = none
option_map f (some a) = some (f a)

abbrev pub default_discoverable : Bool
default_discoverable = true

abbrev default_block_transfer : Bool
default_block_transfer = true

abbrev pushed : Option DiscoverableResource → List DiscoverableResource → List DiscoverableResource
pushed none rest = rest
pushed (some d) rest = d ∷ rest

abbrev pub core_path : Text
core_path = codes "/.well-known/core"

-- What the libraries give: the size that block handlers have by default, the width of `usize`, how a
-- link and its attributes are formatted, and `/.well-known/core`'s handler.
pub record Libraries (H Value : Type 0) : Type 0 where
  pub default_message_size : ℕ
  pub usize_bits : ℕ
  pub format_single_link : CoreLink Value → Text
  pub format_for_comparison : Value → Text
  pub core_handler : List DiscoverableResource → H

module _ {H Value : Type 0} (lib : Libraries H Value) where
  open lib use {
    default_message_size, usize_bits, format_single_link, format_for_comparison, core_handler,
  }

  -- The message size of `new_block_handler`.
  unfoldable pub new_block_handler : Option ℕ → ℕ
  new_block_handler none = default_message_size
  new_block_handler (some mtu) = if ltb mtu (2 ^ usize_bits) then mtu else default_message_size

  unfoldable pub discoverable_of : CoreLink Value → DiscoverableResource
  unfolding extend insert
  discoverable_of src = record {
    link_str = format_single_link src;
    attributes_as_string = extend (map (λ b. (b.0, format_for_comparison b.1)) src.attributes) [];
  }

module _ {H O Value : Type 0} (lib : Libraries H Value) where
  open lib use {core_handler}

  unfoldable pub build : Option ℕ → ResourceBuilder H O Value → Resource H O
  unfolding new_block_handler discoverable_of
  build mtu self = record {
    path = self.path;
    discoverable =
        if unwrap_or true self.config.discoverable
        then some (discoverable_of lib self.attributes)
        else none;
    handler = record {
      handlers = self.handlers;
      observe_handler = option_map (λ x. (self.path, x)) self.observable;
      block_handler =
          if unwrap_or default_block_transfer self.config.block_transfer
          then some (new_block_handler lib mtu)
          else none;
    };
  }

  -- The loop over the resources: the discoverable ones, and the handlers in their order.
  unfoldable pub build_all :
      Option ℕ
      → List (ResourceBuilder H O Value)
      → List DiscoverableResource × List (Text × ResourceHandler H O)
  unfolding build
  build_all mtu [] = ([], [])
  build_all mtu (b ∷ builders) =
      let resource = build mtu b in
      let rest = build_all mtu builders in
      (pushed resource.discoverable rest.0, (resource.path, resource.handler) ∷ rest.1)

  unfoldable pub new_resource_builder : List DiscoverableResource → ResourceBuilder H O Value
  unfolding new_resource handler
  new_resource_builder resources =
      method_handler get_type (core_handler resources) (new_resource core_path)

  abbrev pub core_entry :
      Option ℕ → Bool → List DiscoverableResource → List (Text × ResourceHandler H O)
  core_entry mtu false found = []
  core_entry mtu true found =
      let core = build mtu (new_resource_builder found) in (core.path, core.handler) ∷ []

  -- The handlers of the app by the path string of their resource; a later one replaces an earlier.
  unfoldable pub handlers_of : AppBuilder H O Value → Option ℕ → Dict Text (ResourceHandler H O)
  unfolding build_all new_resource_builder extend insert
  handlers_of builder mtu =
      let built = build_all mtu builder.resources in
      let discoverable = unwrap_or default_discoverable builder.config.discoverable in
      extend (built.1 ++ core_entry mtu discoverable built.0) []

  -- The entries stand for the iteration order of the map.
  unfoldable pub from_builder : AppBuilder H O Value → Option ℕ → AppHandler H O
  unfolding handlers_of from_path_strings
  from_builder builder mtu = record {
    error_block_handler = new_block_handler lib mtu;
    handlers_by_path = from_path_strings (handlers_of builder mtu);
  }
