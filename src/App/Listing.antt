-- ===== src/App/Listing.antt =====
-- What `/.well-known/core` lists of the links of core_link.rs.
use coap_server_rs.Base.{
  Option, none, some, List, [], ◌∷◌, Dict, nat_eq, list_eq, ◌==◌, if◌then◌else◌, Text, All, ◌≡◌,
}
use coap_server_rs.App.{CoreLink}
use coap_server_rs.App.Assemble.{Libraries}

-- The value of the last attribute with the key, formatted.
abbrev pub last_value :
    {Value : Type 0} → (Value → Text) → Text → Option Text → List (Text × Value) → Option Text
last_value format key found [] = found
last_value format key found ((k, value) ∷ attributes) =
    let next = last_value format key (some (format value)) attributes in
    let same = last_value format key found attributes in if k == key then next else same

module _ {H Value : Type 0} (lib : Libraries H Value) where
  -- For every query the link has an attribute with its key, and the last one has its value.
  abbrev pub IsListedFor : Dict Text Text → CoreLink Value → Type 0
  IsListedFor queries link =
      All (λ q. last_value lib.format_for_comparison q.0 none link.attributes ≡ some q.1) queries
