-- ===== src/PathMatcher/Tests.antt =====
-- path_matcher.rs at concrete tables: the cases of its unit tests, and the theorems applied.
use coap_server_rs.Base.{
  ℕ, ◌≤◌, ◌≡◌, refl, ◌⊎◌, ◌↔◌, none, some, List, [], ◌∷◌, take, Text, codes, Member, nat_eq,
  list_eq,
}
use coap_server_rs.PathMatcher.{
  PathMatcher, MatchedResult, from_path_strings, lookup, match_all, lookup_exact,
}
use coap_server_rs.PathMatcher.Lookup.{IsMostSpecific, lookup_cases, match_all_iff}

abbrev path_ab : List Text
path_ab = codes "a" ∷ codes "b" ∷ []

abbrev path_abc : List Text
path_abc = codes "a" ∷ codes "b" ∷ codes "c" ∷ []

abbrev path_abcd : List Text
path_abcd = codes "a" ∷ codes "b" ∷ codes "c" ∷ codes "d" ∷ []

abbrev path_abd : List Text
path_abd = codes "a" ∷ codes "b" ∷ codes "d" ∷ []

abbrev new_matcher : PathMatcher ℕ
new_matcher = record { map = (path_abc, 1) ∷ (path_abd, 2) ∷ [] }

test_new_matcher : from_path_strings ((codes "/a/b/c", 1) ∷ (codes "a//b/d/", 2) ∷ []) ≡ new_matcher
unfolding from_path_strings
test_new_matcher = refl

test_ambiguous_match : lookup new_matcher path_ab ≡ none
unfolding lookup
test_ambiguous_match = refl

test_inexact_match : lookup new_matcher path_abcd ≡ some (record { value = 1; matched_index = 3 })
unfolding lookup
test_inexact_match = refl

lookup_cases_example :
    ((lookup new_matcher path_abcd ≡ none)
      × ((j : ℕ) → j ≤ 4 → lookup_exact new_matcher (take j path_abcd) ≡ none))
    ⊎ ((r : MatchedResult ℕ) × (lookup new_matcher path_abcd ≡ some r)
        × IsMostSpecific new_matcher path_abcd r)
lookup_cases_example = lookup_cases new_matcher path_abcd

match_all_iff_example :
    Member (record { value = 2; matched_index = 3 }) (match_all new_matcher path_abd)
    ↔ ((3 ≤ 3) × (lookup_exact new_matcher path_abd ≡ some 2))
match_all_iff_example = match_all_iff new_matcher path_abd (record { value = 2; matched_index = 3 })
