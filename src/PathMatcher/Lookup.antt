-- ===== src/PathMatcher/Lookup.antt =====
-- What the searches of path_matcher.rs find.
use coap_server_rs.Base.{
  ℕ, zero, suc, ◌≤◌, ◌<◌, ◌≡◌, refl, ◌⊎◌, inl, inr, none, some, List, [], arith, take, length, Text,
  Dict, get, Option-cases, take-length, ◌↔◌, nat_eq, list_eq, ℕ_discrete, get-insert, ==-refl,
  up_to_suc, Member, if◌then◌else◌, ◌==◌, get-remove,
}
use coap_server_rs.PathMatcher.{
  PathMatcher, MatchedResult, lookup_from, lookup, match_all_from, match_all, lookup_exact, insert,
  remove,
}
use mathlib.Core.List.{head?}

module _ {V : Type 0} where
  -- The value stands under the prefix of that length, and no longer prefix of the path has one.
  pub record IsMostSpecific (m : PathMatcher V) (path : List Text) (r : MatchedResult V)
      : Type 0 where
    pub in_path : r.matched_index ≤ length path
    pub stored : lookup_exact m (take r.matched_index path) ≡ some r.value
    pub longest :
        (j : ℕ) → j ≤ length path → r.matched_index < j → lookup_exact m (take j path) ≡ none

  lookup_from_cases :
      (m : PathMatcher V) (path : List Text) (d : ℕ)
      → ((lookup_from m.map path d ≡ none) × ((j : ℕ) → j ≤ d → get (take j path) m.map ≡ none))
        ⊎ ((r : MatchedResult V) × (lookup_from m.map path d ≡ some r)
            × (r.matched_index ≤ d)
            × (get (take r.matched_index path) m.map ≡ some r.value)
            × ((j : ℕ) → j ≤ d → r.matched_index < j → get (take j path) m.map ≡ none))
  unfolding lookup_from
  lookup_from_cases m path zero = elim (Option-cases (get [] m.map)) [
    | inl e ↦ inl (ground arith, λ j h. let e' : j ≡ 0 = omega arith in rw e' e)
    | inr (v, e) ↦ inr (
      record { value = v; matched_index = 0 },
      ground arith,
      omega arith,
      e,
      λ j p q. absurd (omega arith),
    )
  ]
  lookup_from_cases m path (suc d) = elim (Option-cases (get (take (suc d) path) m.map)) [
    | inr (v, e) ↦ inr (
      record { value = v; matched_index = suc d },
      ground arith,
      omega arith,
      e,
      λ j p q. absurd (omega arith),
    )
    | inl e ↦ elim (lookup_from_cases m path d) [
      | inl (n, above) ↦
          inl (ground arith, up_to_suc (λ j. get (take j path) m.map ≡ none) d above e)
      | inr (r, f, le, stored, above) ↦ inr (
        r,
        ground arith,
        omega arith,
        stored,
        up_to_suc (λ j. r.matched_index < j → get (take j path) m.map ≡ none) d above (λ _. e),
      )
    ]
  ]

  -- A lookup either finds the most specific match, or finds nothing, and then no prefix of the
  -- path is a key, the empty one and the whole path included.
  pub lookup_cases :
      (m : PathMatcher V) (path : List Text)
      → ((lookup m path ≡ none) × ((j : ℕ) → j ≤ length path → lookup_exact m (take j path) ≡ none))
        ⊎ ((r : MatchedResult V) × (lookup m path ≡ some r) × IsMostSpecific m path r)
  unfolding lookup lookup_exact
  lookup_cases m path = elim (lookup_from_cases m path (length path)) [
    | inl h ↦ inl h
    | inr (r, f, le, stored, above) ↦
        inr (r, f, record { in_path = le; stored = stored; longest = above })
  ]

  -- `lookup` gives the first result of `match_all`, and nothing when that is empty.
  pub lookup-match_all :
      (m : PathMatcher V) (path : List Text) → lookup m path ≡ head? (match_all m path)
  unfolding lookup match_all
  lookup-match_all m path = go (length path)
    where
      go : (d : ℕ) → lookup_from m.map path d ≡ head? (match_all_from m.map path d)
      go zero = ground arith
      go (suc d) = ground (arith, go d)

  pub match_all_from_sound :
      (m : PathMatcher V) (path : List Text) (d : ℕ) (r : MatchedResult V)
      → Member r (match_all_from m.map path d)
      → (r.matched_index ≤ d) × (get (take r.matched_index path) m.map ≡ some r.value)
  unfolding match_all_from
  match_all_from_sound m path zero r h = elim (Option-cases (get [] m.map)) [
    | inl e ↦ ground arith
    | inr (v, e) ↦ ground arith
  ]
  match_all_from_sound m path (suc d) r h = elim (Option-cases (get (take (suc d) path) m.map)) [
    | inl e ↦ ground (arith, match_all_from_sound m path d r)
    | inr (v, e) ↦ ground (arith, match_all_from_sound m path d r)
  ]

  match_all_from_complete :
      (m : PathMatcher V) (path : List Text) (d : ℕ) (r : MatchedResult V)
      → r.matched_index ≤ d
      → get (take r.matched_index path) m.map ≡ some r.value
      → Member r (match_all_from m.map path d)
  unfolding match_all_from
  match_all_from_complete m path zero r h e =
      let e' : r.matched_index ≡ 0 = omega arith in
      let found : get [] m.map ≡ some r.value = rw e' at e in rw found (inl (ground arith))
  match_all_from_complete m path (suc d) r h e = elim (ℕ_discrete r.matched_index (suc d)) [
    | yes here ↦
        let found : get (take (suc d) path) m.map ≡ some r.value = rw here at e in
        rw found (inl (ground arith))
    | no below ↦ elim (Option-cases (get (take (suc d) path) m.map)) [
      | inl n ↦ rw n (match_all_from_complete m path d r (omega arith) e)
      | inr (v, f) ↦ rw f (inr (match_all_from_complete m path d r (omega arith) e))
    ]
  ]

  -- `match_all` finds a value at a depth exactly when the prefix of the path of that length, at
  -- most the whole path, is its key.
  pub match_all_iff :
      (m : PathMatcher V) (path : List Text) (r : MatchedResult V)
      → Member r (match_all m path) ↔ (
          (r.matched_index ≤ length path)
          × (lookup_exact m (take r.matched_index path) ≡ some r.value))
  unfolding match_all lookup_exact
  match_all_iff m path r = (
    match_all_from_sound m path (length path) r,
    λ h. match_all_from_complete m path (length path) r h.0 h.1,
  )

  -- Inserting and removing: a lookup of a whole key sees the new value, or none, and every other
  -- key is left as it was; both calls return the value that the key had.
  pub lookup_exact-insert-remove :
      (m : PathMatcher V) (key other : List Text) (v : V)
      → (lookup_exact (insert m key v).0 other
          ≡ (if key == other then some v else lookup_exact m other))
        × (lookup_exact (remove m key).0 other
            ≡ (if key == other then none else lookup_exact m other))
        × ((insert m key v).1 ≡ lookup_exact m key)
        × ((remove m key).1 ≡ lookup_exact m key)
  unfolding insert remove lookup_exact
  lookup_exact-insert-remove m key other v =
      (get-insert key other v m.map, get-remove key other m.map, refl, refl)

  lookup_from_hit :
      (m : Dict (List Text) V) (path : List Text) (d : ℕ) (v : V)
      → get (take d path) m ≡ some v
      → lookup_from m path d ≡ some (record { value = v; matched_index = d })
  unfolding lookup_from
  lookup_from_hit m path zero v e = ground arith
  lookup_from_hit m path (suc d) v e = ground arith

  -- A value inserted under a path is what that path's lookup gives, with nothing left unmatched.
  pub lookup-insert :
      (m : PathMatcher V) (key : List Text) (v : V)
      → lookup (insert m key v).0 key ≡ some (record { value = v; matched_index = length key })
  unfolding lookup insert
  lookup-insert m key v =
      lookup_from_hit (insert m key v).0.map key (length key) v
        (rw (take-length key, get-insert key key v m.map, ==-refl key) refl)
