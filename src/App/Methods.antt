-- ===== src/App/Methods.antt =====
-- The choice of a resource's handler by the methods of its builder (resource_builder.rs and
-- request_type_key.rs).
use coap_server_rs.Base.{
  ◌≡◌, ◌≢◌, refl, ◌∙◌, sym, ap, none, some, get, ok, arith, get-insert, insert, get-insert_self,
  get-insert_ne, Option-cases, if◌then◌else◌, ◌==◌, nat_eq, get-insert, inl, inr,
}
use coap_server_rs.Coap.{
  RequestType, get as get_type, post as post_type, put as put_type, delete as delete_type,
  fetch as fetch_type, patch as patch_type, ipatch as ipatch_type, unknown,
}
use coap_server_rs.App.{
  RequestTypeKey, request_type_key, new_match_all, type_key_eq, ResourceBuilder, ResourceHandler,
  handler, method_handler, default_handler,
}
use coap_server_rs.App.Route.{method_handler_of}

-- The request type of a key.
abbrev type_of : RequestTypeKey → RequestType
type_of k =
    if k.number == 1
    then get_type
    else if k.number == 2
    then post_type
    else if k.number == 3
    then put_type
    else if k.number == 4
    then delete_type
    else if k.number == 5
    then fetch_type
    else if k.number == 6
    then patch_type
    else if k.number == 7
    then ipatch_type
    else unknown

type_of-request_type_key : (t : RequestType) → type_of (request_type_key t) ≡ t
type_of-request_type_key get_type = refl
type_of-request_type_key post_type = refl
type_of-request_type_key put_type = refl
type_of-request_type_key delete_type = refl
type_of-request_type_key fetch_type = refl
type_of-request_type_key patch_type = refl
type_of-request_type_key ipatch_type = refl
type_of-request_type_key unknown = refl

-- Two request types share a key only when they are equal.
request_type_key_inj : (s t : RequestType) → request_type_key s ≡ request_type_key t → s ≡ t
request_type_key_inj s t e =
    sym (type_of-request_type_key s) ∙ ap type_of e ∙ type_of-request_type_key t

abbrev pub handling : {H O Value : Type 0} → ResourceBuilder H O Value → ResourceHandler H O
handling b = record { handlers = b.handlers; observe_handler = none; block_handler = none }

module _ {H O Value : Type 0} where
  -- Setting handlers on a builder: the method's requests, and only they, get the handler that was
  -- set last for them; the default handler gets those of the methods without a handler; a request
  -- type that the library does not know is the same as the default.
  pub method_handler_of-handler :
      (b : ResourceBuilder H O Value) (h : H) (s t : RequestType)
      → (method_handler_of (handling (method_handler s h b)) s ≡ ok h)
        × (s ≢ t
            → s ≢ unknown
            → method_handler_of (handling (method_handler s h b)) t
              ≡ method_handler_of (handling b) t)
        × (get (request_type_key t) b.handlers ≡ none
            → method_handler_of (handling (default_handler h b)) t ≡ ok h)
        × ((g : H)
            → t ≢ unknown
            → get (request_type_key t) b.handlers ≡ some g
            → method_handler_of (handling (default_handler h b)) t ≡ ok g)
        × (method_handler unknown h b ≡ default_handler h b)
  unfolding method_handler_of handler
  method_handler_of-handler b h s t = (
    rw (method_handler_of, get-insert_self (request_type_key s) h b.handlers) refl,
    λ other named.
        rw
          (
            method_handler_of,
            get-insert_ne (request_type_key s) (request_type_key t) h b.handlers (apart other),
            get-insert_ne (request_type_key s) new_match_all h b.handlers (apart named),
          )
          refl,
    λ n. defaulted n,
    λ g named e.
        rw
          (
            method_handler_of,
            get-insert_ne new_match_all (request_type_key t) h b.handlers
                (λ q. apart named (sym q)),
            e,
          )
          refl,
    refl,
  )
    where
      apart : {s t : RequestType} → s ≢ t → request_type_key s ≢ request_type_key t
      apart n e = n (request_type_key_inj _ _ e)

      defaulted :
          get (request_type_key t) b.handlers ≡ none
          → method_handler_of (handling (default_handler h b)) t ≡ ok h
      defaulted n =
          elim (Option-cases (get (request_type_key t) (insert new_match_all h b.handlers))) [
            | inl e ↦ rw (method_handler_of, e, get-insert_self new_match_all h b.handlers) refl
            | inr (g, e) ↦
                let e' : (if new_match_all == request_type_key t then some h else none) ≡ some g =
                  sym (get-insert new_match_all (request_type_key t) h b.handlers ∙ rw n refl)
                  ∙ e in
                let same : h ≡ g = ground arith in rw (method_handler_of, e, same) refl
          ]
