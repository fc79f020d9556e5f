-- ===== src/App/Laws.antt =====
-- What an app's table holds after it has been made from its builder.
use coap_server_rs.Base.{
  ℕ, Bool, true, false, Option, some, List, [], ◌∷◌, ◌++◌, map, Dict, get, insert, extend, nat_eq,
  list_eq, ◌≡◌, Text,
}
use coap_server_rs.PathMatcher.{from_path_strings}
use coap_server_rs.App.{
  type_key_eq, DiscoverableResource, ResourceBuilder, ResourceHandler, AppBuilder, set_discoverable,
  set_block_transfer,
}
use coap_server_rs.App.Assemble.{
  Libraries, build, build_all, handlers_of, from_builder, core_path, core_entry,
  new_resource_builder, unwrap_or, default_discoverable, discoverable_of,
}
use mathlib.Core.List.{append_assoc, append-nil}
use coap_server_rs.PathMatcher.{lookup_exact, key_from_path}
use coap_server_rs.Base.{
  All, All-append, keep, refl, ap, sym, ◌∙◌, ◌≢◌, inl, inr, get-extend_last, extend-append,
  All-mono, Bool-cases, IsOnly, get-extend-Member, extend-All, get-Member, Member-map, list_eq,
}

core_entry-All :
    {H Value : Type 0} (O : Type 0) (lib : Libraries H Value) (path : Text) (mtu : Option ℕ)
    (on : Bool) (found : List DiscoverableResource)
    → key_from_path core_path ≢ key_from_path path
    → All {A = Text × ResourceHandler H O}
        (λ e. key_from_path e.0 ≢ key_from_path path)
        (core_entry lib mtu on found)
unfolding build new_resource_builder
core_entry-All O lib path mtu true found h = (h, tt)
core_entry-All O lib path mtu false found h = tt

module _ {H O Value : Type 0} (lib : Libraries H Value) where
  -- The resource whose path string has other segments than the given one.
  abbrev pub IsElsewhere : Text → ResourceBuilder H O Value → Type 0
  IsElsewhere path b = key_from_path b.path ≢ key_from_path path

  build_all-append :
      (mtu : Option ℕ) (bs cs : List (ResourceBuilder H O Value))
      → (build_all lib mtu (bs ++ cs)).1 ≡ (build_all lib mtu bs).1 ++ (build_all lib mtu cs).1
  unfolding build_all
  build_all-append mtu [] cs = refl
  build_all-append mtu (b ∷ bs) cs =
      ap (◌∷◌ ((build lib mtu b).path, (build lib mtu b).handler)) (build_all-append mtu bs cs)

  build_all-All :
      (path : Text) (mtu : Option ℕ) (bs : List (ResourceBuilder H O Value))
      → All (IsElsewhere path) bs
      → All (λ e. key_from_path e.0 ≢ key_from_path path) (build_all lib mtu bs).1
  unfolding build_all build
  build_all-All path mtu [] h = tt
  build_all-All path mtu (b ∷ bs) h = (h.0, build_all-All path mtu bs h.1)

  -- In the table of path strings a resource that is alone with its path has its entry.
  from_path_strings_only :
      (path : Text) (v : ResourceHandler H O) (before after : Dict Text (ResourceHandler H O))
      → All (λ e. key_from_path e.0 ≢ key_from_path path) before
      → All (λ e. key_from_path e.0 ≢ key_from_path path) after
      → lookup_exact
          (from_path_strings (extend (before ++ (path, v) ∷ after) []))
          (key_from_path path)
        ≡ some v
  unfolding lookup_exact from_path_strings
  from_path_strings_only path v before after hb ha =
      let key = key_from_path path in
      let table = extend (before ++ (path, v) ∷ after) [] in
      let only : All (λ e. key_from_path e.0 ≡ key → e.1 ≡ v) table =
        extend-All _ (before ++ (path, v) ∷ after) []
          (All-append _ before ((path, v) ∷ after) (All-mono _ _ before (λ e n q. absurd (n q)) hb)
            (λ _. refl, All-mono _ _ after (λ e n q. absurd (n q)) ha))
          tt in
      let there : get path table ≡ some v =
        get-extend_last path v before after []
          (All-mono _ _ after (λ e n q. n (ap key_from_path q)) ha) in
      let keyed : Text × ResourceHandler H O → List Text × ResourceHandler H O =
        λ e. (key_from_path e.0, e.1) in
      get-extend-Member key v (map keyed table) [] (rekeyed key table only)
        ((Member-map keyed table (key, v)).1 ((path, v), get-Member path v table there, refl))
    where
      rekeyed :
          (key : List Text) (es : Dict Text (ResourceHandler H O))
          → All (λ e. key_from_path e.0 ≡ key → e.1 ≡ v) es
          → IsOnly key v (map (λ e. (key_from_path e.0, e.1)) es)
      rekeyed key [] h = tt
      rekeyed key (e ∷ es) h = (h.0, rekeyed key es h.1)

  -- A resource of an app whose path no other resource has, `/.well-known/core` included, is found
  -- under its path with just its own handlers.
  pub from_builder-lookup_exact :
      (builder : AppBuilder H O Value) (mtu : Option ℕ) (bs cs : List (ResourceBuilder H O Value))
      (b : ResourceBuilder H O Value)
      → builder.resources ≡ bs ++ b ∷ cs
      → All (IsElsewhere b.path) bs
      → All (IsElsewhere b.path) cs
      → key_from_path core_path ≢ key_from_path b.path
      → lookup_exact (from_builder lib builder mtu).handlers_by_path (key_from_path b.path)
        ≡ some (build lib mtu b).handler
  unfolding from_builder handlers_of build_all build
  from_builder-lookup_exact builder mtu bs cs b e hb hc core =
      let built = build_all lib mtu builder.resources in
      let last =
        core_entry lib mtu (unwrap_or default_discoverable builder.config.discoverable) built.0 in
      let split : built.1 ≡ (build_all lib mtu bs).1 ++ (build_all lib mtu (b ∷ cs)).1 =
        ap (λ rs. (build_all lib mtu rs).1) e ∙ build_all-append mtu bs (b ∷ cs) in
      let entries : built.1 ++ last
          ≡ (build_all lib mtu bs).1
            ++ (b.path, (build lib mtu b).handler) ∷ ((build_all lib mtu cs).1 ++ last) =
        ap (λ es. es ++ last) split
        ∙ append_assoc (build_all lib mtu bs).1 (build_all lib mtu (b ∷ cs)).1 last in
      ap (λ es. lookup_exact (from_path_strings (extend es [])) (key_from_path b.path)) entries
      ∙ from_path_strings_only b.path (build lib mtu b).handler (build_all lib mtu bs).1
          ((build_all lib mtu cs).1 ++ last) (build_all-All b.path mtu bs hb)
          (All-append _ (build_all lib mtu cs).1 last (build_all-All b.path mtu cs hc)
            (core_entry-All O lib b.path mtu _ built.0 core))

  build_all-discoverable :
      (mtu : Option ℕ) (bs : List (ResourceBuilder H O Value))
      → (build_all lib mtu bs).0
        ≡ map
            (λ b. discoverable_of lib b.attributes)
            (keep (λ b. unwrap_or true b.config.discoverable) bs)
  unfolding build_all build
  build_all-discoverable mtu [] = refl
  build_all-discoverable mtu (b ∷ bs) = elim (Bool-cases (unwrap_or true b.config.discoverable)) [
    | inl y ↦ rw y (ap (◌∷◌ (discoverable_of lib b.attributes)) (build_all-discoverable mtu bs))
    | inr n ↦ rw n (build_all-discoverable mtu bs)
  ]

  -- The options of the app's builder: the one for block transfer changes nothing of the app; the one
  -- for discovery decides only whether `/.well-known/core` is a resource, which then lists the
  -- resources that do not opt out themselves, and changes no other resource.
  pub handlers_of-set :
      (builder : AppBuilder H O Value) (mtu : Option ℕ) (on : Bool)
      → (from_builder lib (set_block_transfer on builder) mtu ≡ from_builder lib builder mtu)
        × (handlers_of lib (set_discoverable false builder) mtu
            ≡ extend (build_all lib mtu builder.resources).1 [])
        × (handlers_of lib (set_discoverable true builder) mtu
            ≡ insert core_path
                (build lib mtu
                  (new_resource_builder lib (build_all lib mtu builder.resources).0)).handler
                (handlers_of lib (set_discoverable false builder) mtu))
        × ((build_all lib mtu builder.resources).0
            ≡ map
                (λ b. discoverable_of lib b.attributes)
                (keep (λ b. unwrap_or true b.config.discoverable) builder.resources))
  unfolding from_builder handlers_of build new_resource_builder extend
  handlers_of-set builder mtu on =
      let built = build_all lib mtu builder.resources in
      (
        refl,
        ap (λ es. extend es []) (append-nil built.1),
        extend-append built.1 (core_entry lib mtu true built.0) []
            ∙ ap (λ es. extend (core_entry lib mtu true built.0) (extend es []))
                (sym (append-nil built.1)),
        build_all-discoverable mtu builder.resources,
      )
