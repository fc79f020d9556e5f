-- ===== src/App/Route.antt =====
-- The way of a request to its handler in app_handler.rs and resource_handler.rs.
use coap_server_rs.Base.{
  ℕ, Option, none, some, List, ◌++◌, get, nat_eq, list_eq, ◌≡◌, Text, Result, ok, err, drop,
}
use coap_server_rs.Base.{◌≤◌, length, take, take-append-drop, Option-cases, ◌⊎◌, inl, inr, refl}
use coap_server_rs.PathMatcher.{lookup_exact}
use coap_server_rs.PathMatcher.Lookup.{IsMostSpecific, lookup_cases}
use coap_server_rs.Coap.{RequestType}
use coap_server_rs.Errors.{CoapError, bad_request, not_found, method_not_allowed}
use coap_server_rs.PathMatcher.{MatchedResult, lookup}
use coap_server_rs.App.{request_type_key, new_match_all, type_key_eq, ResourceHandler, AppHandler}

module _ {H : Type 0} where
  abbrev pub or_else : Option H → Option H → Option H
  or_else (some a) b = some a
  or_else none b = b

module _ {H O : Type 0} where
  -- The handler that `ResourceHandler::handle` chooses for a request of the type.
  unfoldable pub method_handler_of : ResourceHandler H O → RequestType → Result H CoapError
  unfolding get
  method_handler_of self method =
      elim (or_else (get (request_type_key method) self.handlers)
        (get new_match_all self.handlers)) [ some h ↦ ok h | none ↦ err method_not_allowed ]

  -- How `try_handle_get` routes a request: the resource's handler for it and the path that is left.
  unfoldable pub route :
      AppHandler H O
      → Result (List Text) Text
      → RequestType
      → Result (H × ResourceHandler H O × List Text) CoapError
  unfolding lookup method_handler_of
  route self (err e) method = err (bad_request e)
  route self (ok paths) method = elim (lookup self.handlers_by_path paths) [
    | none ↦ err not_found
    | some found ↦ elim (method_handler_of found.value method) [
      | err e ↦ err e
      | ok h ↦ ok (h, found.value, drop found.matched_index paths)
    ]
  ]

  -- Routing a request whose path can be read: either no prefix of the path, the empty one and the
  -- whole included, is the path of a resource, and the answer is 4.04; or the resource with the
  -- longest such prefix gets it, with the handler of the request's method or else its default one
  -- and with exactly the segments after the prefix, or the answer is 4.05 if it has neither.
  pub route_cases :
      (self : AppHandler H O) (paths : List Text) (method : RequestType)
      → (((j : ℕ) → j ≤ length paths → lookup_exact self.handlers_by_path (take j paths) ≡ none)
          × (route self (ok paths) method ≡ err not_found))
        ⊎ ((r : MatchedResult (ResourceHandler H O)) × IsMostSpecific self.handlers_by_path paths r
            × (((h : H) × (rest : List Text) × (or_else
                      (get (request_type_key method) r.value.handlers)
                      (get new_match_all r.value.handlers)
                    ≡ some h)
                  × (take r.matched_index paths ++ rest ≡ paths)
                  × (route self (ok paths) method ≡ ok (h, r.value, rest)))
                ⊎ ((get (request_type_key method) r.value.handlers ≡ none)
                    × (get new_match_all r.value.handlers ≡ none)
                    × (route self (ok paths) method ≡ err method_not_allowed))))
  unfolding route method_handler_of
  route_cases self paths method = elim (lookup_cases self.handlers_by_path paths) [
    | inl (none_found, above) ↦ inl (above, rw (route, none_found) refl)
    | inr (r, found, specific) ↦ inr (
      r,
      specific,
      elim (Option-cases (get (request_type_key method) r.value.handlers)) [
        | inr (h, e) ↦ inl (
          h,
          drop r.matched_index paths,
          rw e refl,
          take-append-drop r.matched_index paths,
          rw (route, found, method_handler_of, e) refl,
        )
        | inl n ↦ elim (Option-cases (get new_match_all r.value.handlers)) [
          | inr (h, e) ↦ inl (
            h,
            drop r.matched_index paths,
            rw (n, e) refl,
            take-append-drop r.matched_index paths,
            rw (route, found, method_handler_of, n, e) refl,
          )
          | inl e ↦ inr (n, e, rw (route, found, method_handler_of, n, e) refl)
        ]
      ],
    )
  ]
