-- ===== src/App/Core.antt =====
-- coap-server/src/app/core_handler.rs: the listing of `/.well-known/core`.
use coap_server_rs.Base.{
  text_eq, Bool, true, false, Option, none, some, List, [], ◌∷◌, map, keep, Dict, get, nat_eq,
  list_eq, ◌==◌, ◌≡◌, ◌↔◌, refl, ◌⊎◌, inl, inr, Text, codes, join, if◌then◌else◌, All, Member,
  Option-cases, Bool-cases, ==-refl, ap, sym, ◌∙◌,
}
use coap_server_rs.Coap.{ResponseType, content}
use coap_server_rs.App.{DiscoverableResource}

abbrev is_some_of : Text → Option Text → Bool
is_some_of value none = false
is_some_of value (some v) = value == v

-- The loop over the queries, in the order in which the map is iterated.
unfoldable pub filter_by_query : DiscoverableResource → Dict Text Text → Bool
unfolding get
filter_by_query resource [] = true
filter_by_query resource ((key, value) ∷ queries) =
    let rest = filter_by_query resource queries in
    if is_some_of value (get key resource.attributes_as_string) then rest else false

-- The payload and the status of the response, whose content format is the link format.
unfoldable pub handle_core : List DiscoverableResource → Dict Text Text → Text × ResponseType
unfolding filter_by_query join
handle_core resources queries = (
  join (codes "\n") (map (λ k. k.link_str) (keep (λ r. filter_by_query r queries) resources)),
  content,
)

pub filter_by_query_iff :
    (r : DiscoverableResource) (queries : Dict Text Text)
    → (filter_by_query r queries ≡ true)
      ↔ All (λ q. get q.0 r.attributes_as_string ≡ some q.1) queries
unfolding filter_by_query
filter_by_query_iff r queries = (there queries, back queries)
  where
    there :
        (qs : Dict Text Text)
        → filter_by_query r qs ≡ true
        → All (λ q. get q.0 r.attributes_as_string ≡ some q.1) qs
    there [] h = tt
    there ((key, value) ∷ qs) h = elim (Option-cases (get key r.attributes_as_string)) [
      | inl n ↦ absurd (let h' : false ≡ true = rw n at h in cc)
      | inr (v, s) ↦ elim (Bool-cases (value == v)) [
        | inl y ↦
            let h' : filter_by_query r qs ≡ true = rw (s, y) at h in
            let same : value ≡ v = (text_eq.eq_iff value v).1 y in
            (s ∙ ap some (sym same), there qs h')
        | inr f ↦ absurd (let h' : false ≡ true = rw (s, f) at h in cc)
      ]
    ]

    back :
        (qs : Dict Text Text)
        → All (λ q. get q.0 r.attributes_as_string ≡ some q.1) qs
        → filter_by_query r qs ≡ true
    back [] h = refl
    back ((key, value) ∷ qs) h = rw (h.0, ==-refl value) (back qs h.1)

pub Member-keep :
    {A : Type 0} (p : A → Bool) (rs : List A) (r : A)
    → Member r (keep p rs) ↔ (Member r rs × (p r ≡ true))
Member-keep p rs r = (there rs, λ h. back rs h.0 h.1)
  where
    there : (rs : _) → Member r (keep p rs) → Member r rs × (p r ≡ true)
    there (s ∷ rs) m = elim (Bool-cases (p s)) [
      | inl y ↦
          let m' : (r ≡ s) ⊎ Member r (keep p rs) = rw y at m in
          elim m' [
            | inl same ↦ (inl same, rw same y)
            | inr later ↦ let k = there rs later in (inr k.0, k.1)
          ]
      | inr n ↦ let m' : Member r (keep p rs) = rw n at m in let k = there rs m' in (inr k.0, k.1)
    ]
    there [] m = absurd m

    back : (rs : _) → Member r rs → p r ≡ true → Member r (keep p rs)
    back (s ∷ rs) (inl same) y = let y' : p s ≡ true = rw same at y in rw y' (inl same)
    back (s ∷ rs) (inr later) y = elim (Bool-cases (p s)) [
      | inl z ↦ rw z (inr (back rs later y))
      | inr n ↦ rw n (back rs later y)
    ]
    back [] m y = absurd m

-- The listing is the links, each on its line and in the order of the resources, of exactly those
-- resources that have, for every query, the attribute of its key with just its value.
pub handle_core_lem :
    (resources : List DiscoverableResource) (queries : Dict Text Text)
    → (listed : List DiscoverableResource) × (handle_core resources queries
        ≡ (join (codes "\n") (map (λ k. k.link_str) listed), content))
      × ((r : DiscoverableResource)
          → Member r listed
            ↔ (Member r resources × All (λ q. get q.0 r.attributes_as_string ≡ some q.1) queries))
unfolding handle_core
handle_core_lem resources queries = (
  keep (λ r. filter_by_query r queries) resources,
  refl,
  λ r.
      let k = Member-keep (λ r. filter_by_query r queries) resources r in
      let f = filter_by_query_iff r queries in
      (λ m. ((k.0 m).0, f.0 (k.0 m).1), λ h. k.1 (h.0, f.1 h.1)),
)
