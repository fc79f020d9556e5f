-- ===== src/PathMatcher/Keys.antt =====
-- `key_from_path` of path_matcher.rs, and the table made from path strings.
use coap_server_rs.Base.{
  ◌≡◌, refl, ◌≢◌, List, [], ◌∷◌, ◌++◌, map, All, Text, IsFreeOf, split_on, join, is_empty, keep,
  not, split_on_last, split_on-append, split_on-IsFreeOf, ap, ◌∙◌, Dict, nat_eq, list_eq, get, some,
  extend, get-extend_last,
}
use coap_server_rs.PathMatcher.{key_from_path, from_path_strings, lookup_exact}
use mathlib.Core.List.{map-append}

-- A segment of a path: not empty, and without a slash.
abbrev pub IsSegment : Text → Type 0
IsSegment p = (p ≢ []) × IsFreeOf b'/' p

abbrev non_empty : List Text → List Text
non_empty = keep (λ s. not (is_empty s))

keep-IsSegment : (ps : List Text) → All (IsFreeOf b'/') ps → All IsSegment (non_empty ps)
keep-IsSegment [] h = tt
keep-IsSegment ([] ∷ ps) h = keep-IsSegment ps h.1
keep-IsSegment ((c ∷ p) ∷ ps) h = ((λ e. cc, h.0), keep-IsSegment ps h.1)

key_from_path-join_of_IsSegment :
    (ps : List Text) → All IsSegment ps → key_from_path (join (b'/' ∷ []) ps) ≡ ps
unfolding key_from_path join
key_from_path-join_of_IsSegment [] h = refl
key_from_path-join_of_IsSegment ([] ∷ ps) h = absurd (h.0.0 refl)
key_from_path-join_of_IsSegment ((c ∷ p) ∷ []) h = rw (split_on_last b'/' (c ∷ p) h.0.1) refl
key_from_path-join_of_IsSegment ((c ∷ p) ∷ q ∷ ps) h =
    ap non_empty (split_on-append b'/' (c ∷ p) (join (b'/' ∷ []) (q ∷ ps)) h.0.1)
    ∙ ap (◌∷◌ (c ∷ p)) (key_from_path-join_of_IsSegment (q ∷ ps) h.1)

-- The key of any path string has only segments that are not empty and hold no slash. Joining such
-- segments by slashes, with a slash in front or without one, gives a path string whose key they are.
pub key_from_path-join :
    (path : Text) (ps : List Text)
    → All IsSegment (key_from_path path)
      × (All IsSegment ps
          → (key_from_path (join (b'/' ∷ []) ps) ≡ ps)
            × (key_from_path (b'/' ∷ join (b'/' ∷ []) ps) ≡ ps))
unfolding key_from_path
key_from_path-join path ps = (
  keep-IsSegment (split_on b'/' path) (split_on-IsFreeOf b'/' path),
  λ h. (key_from_path-join_of_IsSegment ps h, slash h),
)
  where
    slash : All IsSegment ps → key_from_path (b'/' ∷ join (b'/' ∷ []) ps) ≡ ps
    slash h =
        ap non_empty (split_on-append b'/' [] (join (b'/' ∷ []) ps) tt)
        ∙ key_from_path-join_of_IsSegment ps h

module _ {V : Type 0} where
  All-rekey :
      (k : List Text) (es : Dict Text V)
      → All (λ e. key_from_path e.0 ≢ k) es
      → All {A = List Text × V} (λ e. e.0 ≢ k) (map (λ e. (key_from_path e.0, e.1)) es)
  All-rekey k [] h = tt
  All-rekey k (e ∷ es) h = (h.0, All-rekey k es h.1)

  -- In a table made from path strings a key holds the value of the last entry, in the iteration
  -- order of the source, whose path string has that key, whatever came before it.
  pub lookup_exact-from_path_strings :
      (before after : Dict Text V) (path : Text) (v : V)
      → All (λ e. key_from_path e.0 ≢ key_from_path path) after
      → lookup_exact (from_path_strings (before ++ (path, v) ∷ after)) (key_from_path path) ≡ some v
  unfolding lookup_exact from_path_strings
  lookup_exact-from_path_strings before after path v h =
      let keyed : Text × V → List Text × V = λ e. (key_from_path e.0, e.1) in
      let k = key_from_path path in
      ap (λ es. get k (extend es [])) (map-append keyed before ((path, v) ∷ after))
      ∙ get-extend_last k v (map keyed before) (map keyed after) [] (All-rekey k after h)
