-- ===== src/Query/Laws.antt =====
-- Queries parsed, and printed.
use coap_server_rs.Base.{
  ◌≡◌, refl, ◌≢◌, ◌↔◌, true, List, [], ◌∷◌, ◌++◌, ok, arith, Text, IsFreeOf, split_on, is_utf8,
  split_on_last, split_on-append, split_on-IsFreeOf, ap, sym, All, some, get, extend, nat_eq,
  list_eq, get-extend_last, ◌∙◌, join, join-split_on, inl, inr, ◌⊎◌, Result-cases,
}
use coap_server_rs.Coap.{Coap, reset, empty}
use coap_server_rs.Query.{
  OptionValueQuery, query_of, to_bytes, do_try_from, new_pong_message, request_get_queries, parsed,
  from_parts,
}
use mathlib.Core.List.{append_assoc}

query_of-ok :
    (k v : Text) (q : OptionValueQuery)
    → query_of k v ≡ ok q
    → (is_utf8 k ≡ true) × (is_utf8 v ≡ true) × (k ≡ q.key) × (v ≡ q.value)
query_of-ok k v q e = ground arith

query_of-utf8 :
    (k v : Text)
    → is_utf8 k ≡ true
    → is_utf8 v ≡ true
    → query_of k v ≡ ok (record { key = k; value = v })
query_of-utf8 k v uk uv = ground arith

-- A query without '=' in its key and value, both well-formed UTF-8, is read back from its bytes.
pub do_try_from-to_bytes :
    (q : OptionValueQuery)
    → IsFreeOf b'=' q.key
    → IsFreeOf b'=' q.value
    → is_utf8 q.key ≡ true
    → is_utf8 q.value ≡ true
    → do_try_from (to_bytes q) ≡ ok q
unfolding do_try_from to_bytes
do_try_from-to_bytes q k v uk uv =
    ap from_parts
      (split_on-append b'=' q.key q.value k ∙ ap (◌∷◌ q.key) (split_on_last b'=' q.value v))
    ∙ query_of-utf8 q.key q.value uk uv

abbrev pub IsQueryText : Text → Type 0
IsQueryText t = IsFreeOf b'=' t × (is_utf8 t ≡ true)

-- The bytes are those of the query, or go on after them with '='.
abbrev pub Begins : Text → OptionValueQuery → Type 0
Begins bytes q = (bytes ≡ to_bytes q) ⊎ ((rest : Text) × (bytes ≡ to_bytes q ++ b'=' ∷ rest))

from_parts-ok :
    (parts : List Text) (q : OptionValueQuery)
    → All (IsFreeOf b'=') parts
    → from_parts parts ≡ ok q
    → IsQueryText q.key × IsQueryText q.value × Begins (join (b'=' ∷ []) parts) q
unfolding join to_bytes
from_parts-ok [] q h e = cc
from_parts-ok (k ∷ []) q h e = cc
from_parts-ok (k ∷ v ∷ []) q h e =
    let (uk, uv, ek, ev) = query_of-ok k v q e in rw (← ek, ← ev) ((h.0, uk), (h.1.0, uv), inl refl)
from_parts-ok (k ∷ v ∷ r ∷ rest) q h e =
    let (uk, uv, ek, ev) = query_of-ok k v q e in
    rw (← ek, ← ev)
      (
        (h.0, uk),
        (h.1.0, uv),
        inr (
          join (b'=' ∷ []) (r ∷ rest),
          sym (append_assoc k (b'=' ∷ v) (b'=' ∷ join (b'=' ∷ []) (r ∷ rest))),
        ),
      )

do_try_from_longer :
    (q : OptionValueQuery) (rest : Text)
    → IsQueryText q.key
    → IsQueryText q.value
    → do_try_from (to_bytes q ++ b'=' ∷ rest) ≡ ok q
unfolding do_try_from to_bytes
do_try_from_longer q rest k v =
    ap (λ t. from_parts (split_on b'=' t)) (append_assoc q.key (b'=' ∷ q.value) (b'=' ∷ rest))
    ∙ ap from_parts (split_on-append b'=' q.key (q.value ++ b'=' ∷ rest) k.0)
    ∙ ap (λ ps. from_parts (q.key ∷ ps)) (split_on-append b'=' q.value rest v.0)
    ∙ query_of-utf8 q.key q.value k.1 v.1

-- Bytes parse as a query exactly when they begin with a key, '=' and a value, both well-formed
-- UTF-8 and without '=', and there end or go on with another '='. What follows that is ignored.
pub do_try_from_iff :
    (bytes : Text) (q : OptionValueQuery)
    → (do_try_from bytes ≡ ok q) ↔ (IsQueryText q.key × IsQueryText q.value × Begins bytes q)
unfolding do_try_from
do_try_from_iff bytes q = (to, from)
  where
    to : do_try_from bytes ≡ ok q → IsQueryText q.key × IsQueryText q.value × Begins bytes q
    to e =
        let h = from_parts-ok (split_on b'=' bytes) q (split_on-IsFreeOf b'=' bytes) e in
        rw (join-split_on b'=' bytes) at h

    from : IsQueryText q.key × IsQueryText q.value × Begins bytes q → do_try_from bytes ≡ ok q
    from (k, v, inl e) = rw e (do_try_from-to_bytes q k.0 v.0 k.1 v.1)
    from (k, v, inr (rest, e)) = rw e (do_try_from_longer q rest k v)

parsed-append : (xs ys : List Text) → parsed (xs ++ ys) ≡ parsed xs ++ parsed ys
parsed-append [] ys = refl
parsed-append (x ∷ xs) ys = elim (Result-cases (do_try_from x)) [
  | inl (q, e) ↦ rw (e, parsed) (ap (◌∷◌ (q.key, q.value)) (parsed-append xs ys))
  | inr (r, e) ↦ rw (e, parsed) (parsed-append xs ys)
]

parsed-hit :
    (option : Text) (after : List Text) (q : OptionValueQuery)
    → do_try_from option ≡ ok q
    → parsed (option ∷ after) ≡ (q.key, q.value) ∷ parsed after
parsed-hit option after q e = rw (e, parsed) refl

parsed-avoids :
    (key : Text) (after : List Text)
    → All (λ o. (r : OptionValueQuery) → do_try_from o ≡ ok r → r.key ≢ key) after
    → All {A = Text × Text} (λ b. b.0 ≢ key) (parsed after)
parsed-avoids key [] h = tt
parsed-avoids key (o ∷ after) h = elim (Result-cases (do_try_from o)) [
  | inl (q, e) ↦ rw (e, parsed) (h.0 q e, parsed-avoids key after h.1)
  | inr (r, e) ↦ rw (e, parsed) (parsed-avoids key after h.1)
]

-- Of a request's query options, in their order, the last that parses to a key gives the key's
-- value, whatever the options before it; those that do not parse count for nothing.
pub request_get_queries_last :
    (before after : List Text) (option : Text) (q : OptionValueQuery)
    → do_try_from option ≡ ok q
    → All (λ o. (r : OptionValueQuery) → do_try_from o ≡ ok r → r.key ≢ q.key) after
    → get q.key (request_get_queries (some (before ++ option ∷ after))) ≡ some q.value
unfolding request_get_queries
request_get_queries_last before after option q e h =
    ap (λ es. get q.key (extend es []))
      (parsed-append before (option ∷ after)
        ∙ ap (◌++◌ (parsed before)) (parsed-hit option after q e))
    ∙ get-extend_last q.key q.value (parsed before) (parsed after) [] (parsed-avoids q.key after h)

module _ (c : Coap) where
  open c use {
    Packet, new_packet, message_id, get_type, code, get_type-set_message_id, get_type-set_code,
    get_type-set_type, code-set_message_id, code-set_code, message_id-set_message_id,
  }

  -- The reply to a ping is an empty reset under the ping's message id.
  pub new_pong_message_lem :
      (ping : Packet)
      → (get_type (new_pong_message c ping) ≡ reset)
        × (code (new_pong_message c ping) ≡ empty)
        × (message_id (new_pong_message c ping) ≡ message_id ping)
  unfolding new_pong_message
  new_pong_message_lem ping = (
    get_type-set_message_id _ _ ∙ get_type-set_code empty _ ∙ get_type-set_type reset new_packet,
    code-set_message_id _ _ ∙ code-set_code empty _,
    message_id-set_message_id (message_id ping) _,
  )
