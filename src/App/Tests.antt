-- ===== src/App/Tests.antt =====
-- An app with the resources "/hello" and "/hello/there", and the theorems applied to it. Handlers are
-- numbers, attribute values texts.
use coap_server_rs.Base.{
  ℕ, ◌≤◌, ◌≡◌, ◌≢◌, refl, arith, true, false, none, some, List, [], ◌∷◌, ◌++◌, map, keep, get,
  insert, extend, nat_eq, list_eq, Text, codes, Result, ok, err, take, length, ◌⊎◌,
}
use coap_server_rs.Coap.{get as get_type, put as put_type, unknown}
use coap_server_rs.Errors.{CoapError, not_found, method_not_allowed}
use coap_server_rs.PathMatcher.{MatchedResult, lookup_exact, key_from_path}
use coap_server_rs.PathMatcher.Lookup.{IsMostSpecific}
use coap_server_rs.App.{
  request_type_key, new_match_all, type_key_eq, ResourceBuilder, ResourceHandler, AppBuilder,
  AppHandler, new_resource, handler, method_handler, default_handler, resource_not_discoverable,
  set_discoverable, set_block_transfer, add_resource, new_app,
}
use coap_server_rs.App.Assemble.{
  Libraries, build, build_all, handlers_of, from_builder, core_path, new_resource_builder,
  unwrap_or, discoverable_of,
}
use coap_server_rs.App.Laws.{from_builder-lookup_exact, handlers_of-set}
use coap_server_rs.App.Methods.{handling, method_handler_of-handler}
use coap_server_rs.App.Route.{method_handler_of, or_else, route, route_cases}

abbrev lib : Libraries ℕ Text
lib = record {
  default_message_size = 1152;
  usize_bits = 64;
  format_single_link = λ l. l.path;
  format_for_comparison = λ v. v;
  core_handler = λ found. length found;
}

abbrev hello : ResourceBuilder ℕ ℕ Text
hello = resource_not_discoverable (method_handler get_type 10 (new_resource (codes "/hello")))

abbrev there : ResourceBuilder ℕ ℕ Text
there = default_handler 21 (method_handler put_type 20 (new_resource (codes "/hello/there")))

abbrev app : AppBuilder ℕ ℕ Text
app = add_resource there (add_resource hello new_app)

abbrev made : AppHandler ℕ ℕ
made = from_builder lib app (some 1024)

abbrev path : List Text
path = codes "hello" ∷ codes "there" ∷ codes "x" ∷ []

abbrev handler_of :
    Result (ℕ × ResourceHandler ℕ ℕ × List Text) CoapError → Result (ℕ × List Text) CoapError
handler_of (ok (h, _, rest)) = ok (h, rest)
handler_of (err e) = err e

test_route : handler_of (route made (ok path) get_type) ≡ ok (21, codes "x" ∷ [])
unfolding route from_builder handler new_resource new_app
test_route = refl

test_method : handler_of (route made (ok (codes "hello" ∷ [])) put_type) ≡ err method_not_allowed
unfolding route from_builder handler new_resource new_app
test_method = refl

-- Only one of the two resources is listed.
test_core :
    handler_of (route made (ok (codes ".well-known" ∷ codes "core" ∷ [])) get_type) ≡ ok (1, [])
unfolding route from_builder handler new_resource new_app
test_core = refl

route_cases_example :
    (((j : ℕ) → j ≤ 3 → lookup_exact made.handlers_by_path (take j path) ≡ none)
      × (route made (ok path) get_type ≡ err not_found))
    ⊎ ((r : MatchedResult (ResourceHandler ℕ ℕ)) × IsMostSpecific made.handlers_by_path path r
        × (((h : ℕ) × (rest : List Text) × (or_else
                  (get (request_type_key get_type) r.value.handlers)
                  (get new_match_all r.value.handlers)
                ≡ some h)
              × (take r.matched_index path ++ rest ≡ path)
              × (route made (ok path) get_type ≡ ok (h, r.value, rest)))
            ⊎ ((get (request_type_key get_type) r.value.handlers ≡ none)
                × (get new_match_all r.value.handlers ≡ none)
                × (route made (ok path) get_type ≡ err method_not_allowed))))
route_cases_example = route_cases made path get_type

method_handler_of-handler_example :
    (method_handler_of (handling (method_handler get_type 5 hello)) get_type ≡ ok 5)
    × (get_type ≢ put_type
        → get_type ≢ unknown
        → method_handler_of (handling (method_handler get_type 5 hello)) put_type
          ≡ method_handler_of (handling hello) put_type)
    × (get (request_type_key put_type) hello.handlers ≡ none
        → method_handler_of (handling (default_handler 5 hello)) put_type ≡ ok 5)
    × ((g : ℕ)
        → put_type ≢ unknown
        → get (request_type_key put_type) hello.handlers ≡ some g
        → method_handler_of (handling (default_handler 5 hello)) put_type ≡ ok g)
    × (method_handler unknown 5 hello ≡ default_handler 5 hello)
method_handler_of-handler_example = method_handler_of-handler hello 5 get_type put_type

hello_elsewhere : key_from_path hello.path ≢ key_from_path there.path
unfolding key_from_path new_resource handler
hello_elsewhere e = cc

core_elsewhere : key_from_path core_path ≢ key_from_path there.path
unfolding key_from_path new_resource handler
core_elsewhere e = ground arith

from_builder-lookup_exact_example :
    lookup_exact made.handlers_by_path (key_from_path there.path)
    ≡ some (build lib (some 1024) there).handler
unfolding new_app
from_builder-lookup_exact_example =
    from_builder-lookup_exact lib app (some 1024) (hello ∷ []) [] there refl (hello_elsewhere, tt)
      tt core_elsewhere

handlers_of-set_example :
    (from_builder lib (set_block_transfer false app) none ≡ from_builder lib app none)
    × (handlers_of lib (set_discoverable false app) none
        ≡ extend (build_all lib none app.resources).1 [])
    × (handlers_of lib (set_discoverable true app) none
        ≡ insert core_path
            (build lib none (new_resource_builder lib (build_all lib none app.resources).0)).handler
            (handlers_of lib (set_discoverable false app) none))
    × ((build_all lib none app.resources).0
        ≡ map
            (λ b. discoverable_of lib b.attributes)
            (keep (λ b. unwrap_or true b.config.discoverable) app.resources))
handlers_of-set_example = handlers_of-set lib app none false
