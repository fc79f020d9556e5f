-- ===== src/App/Link.antt =====
-- coap-server/src/app/core_link.rs: the values of link attributes, and how a link is written by the
-- message library's writer of links.
use coap_server_rs.Base.{
  ℕ, List, [], ◌∷◌, ◌++◌, Result, ok, err, Outcome, returned, panicked, Text, ltb, ◌^◌,
  if◌then◌else◌,
}
use coap_server_rs.App.{CoreLink}

-- The library's writer: `W` writes links, `L` the attributes of one. What is written can fail.
pub record LinkWriter : Type 1 where
  pub W : Type 0
  pub L : Type 0
  pub Error : Type 0
  pub new_write : W
  pub link : Text → W → L
  pub attr : Text → Text → L → L
  pub attr_quoted : Text → Text → L → L
  pub attr_u32 : Text → ℕ → L → L
  pub finish_link : L → Result W Error
  pub finish : W → Result Text Error

-- The types whose values the code lets an attribute have; a content format is known by its number.
pub data LinkAttributeValue : Type 0 where
  str : Text → LinkAttributeValue
  number : ℕ → LinkAttributeValue
  content_format : ℕ → LinkAttributeValue
  unit_value : LinkAttributeValue

unfoldable pub new_link : Text → CoreLink LinkAttributeValue
new_link path = record { path = path; attributes = [] }

unfoldable pub add_attr :
    Text → LinkAttributeValue → CoreLink LinkAttributeValue → CoreLink LinkAttributeValue
add_attr key value self = record self { attributes = self.attributes ++ (key, value) ∷ [] }

-- `to_string` is the decimal text of a number.
unfoldable pub format_for_comparison : (ℕ → Text) → LinkAttributeValue → Text
format_for_comparison to_string (str s) = s
format_for_comparison to_string (number n) = to_string n
format_for_comparison to_string (content_format n) = to_string n
format_for_comparison to_string unit_value = []

module _ (w : LinkWriter) where
  open w use {W, L, Error, new_write, link, attr, attr_quoted, attr_u32, finish_link, finish}

  -- The number of a content format that does not fit a `u32` panics.
  unfoldable pub write_to : LinkAttributeValue → Text → L → Outcome L
  write_to (str s) key write = returned (attr_quoted key s write)
  write_to (number n) key write = returned (attr_u32 key n write)
  write_to (content_format n) key write =
      if ltb n (2 ^ 32) then returned (attr_u32 key n write) else panicked
  write_to unit_value key write = returned (attr key [] write)

  unfoldable pub write_attributes : List (Text × LinkAttributeValue) → L → Outcome L
  unfolding write_to
  write_attributes [] l = returned l
  write_attributes ((key, value) ∷ attributes) l = elim (write_to value key l) [
    | panicked ↦ panicked
    | returned next ↦ write_attributes attributes next
  ]

  abbrev finish_attributes : Outcome L → Outcome (Result W Error)
  finish_attributes panicked = panicked
  finish_attributes (returned l) = returned (finish_link l)

  unfoldable pub write_link : CoreLink LinkAttributeValue → W → Outcome (Result W Error)
  unfolding write_attributes
  write_link self write =
      finish_attributes (write_attributes self.attributes (link self.path write))

  abbrev unwrapped : {A : Type 0} → Result A Error → Outcome A
  unwrapped (ok a) = returned a
  unwrapped (err e) = panicked

  abbrev finish_write : Outcome (Result W Error) → Outcome Text
  finish_write panicked = panicked
  finish_write (returned (err e)) = panicked
  finish_write (returned (ok write)) = unwrapped (finish write)

  unfoldable pub format_single_link : CoreLink LinkAttributeValue → Outcome Text
  unfolding write_link
  format_single_link self = finish_write (write_link self new_write)
