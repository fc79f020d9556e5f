-- ===== src/Query/Tests.antt =====
-- coap_utils.rs at concrete bytes, and the theorems applied.
use coap_server_rs.Base.{◌≡◌, ◌↔◌, refl, [], ◌∷◌, ok, err, some, codes, nat_eq, list_eq}
use coap_server_rs.Coap.{empty, MessageType}
use coap_server_rs.Coap.Sample.{Header}
use coap_server_rs.Errors.{bad_request}
use coap_server_rs.Query.{OptionValueQuery, do_try_from, request_get_queries}
use coap_server_rs.Query.Laws.{IsQueryText, Begins, do_try_from_iff}

abbrev rt_foo : OptionValueQuery
rt_foo = record { key = codes "rt"; value = codes "foo" }

test_truncated : do_try_from (codes "rt=foo=bar") ≡ ok rt_foo
unfolding do_try_from
test_truncated = refl

test_missing :
    do_try_from (codes "rt") ≡ err (bad_request (codes "Missing '=', not a valid query string"))
unfolding do_try_from
test_missing = refl

test_not_utf8 : do_try_from (0xc3 ∷ b'=' ∷ []) ≡ err (bad_request (codes "Key is not UTF-8"))
unfolding do_try_from
test_not_utf8 = refl

test_queries :
    request_get_queries (some (codes "rt=a" ∷ codes "obs" ∷ codes "rt=foo" ∷ []))
    ≡ (codes "rt", codes "foo") ∷ []
unfolding request_get_queries
test_queries = refl

do_try_from_iff_example :
    (do_try_from (codes "rt=foo=bar") ≡ ok rt_foo)
    ↔ (IsQueryText (codes "rt") × IsQueryText (codes "foo") × Begins (codes "rt=foo=bar") rt_foo)
do_try_from_iff_example = do_try_from_iff (codes "rt=foo=bar") rt_foo

abbrev ping : Header
ping = record { id = 9; kind = MessageType.confirmable; class = empty }
