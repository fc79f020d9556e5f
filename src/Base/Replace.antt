-- ===== src/Base/Replace.antt =====
-- `str::replace` by the empty text.
use Prim.Native.Nat.{ℕ, zero, suc}
use mathlib.Core.List.{[], ◌∷◌}
use mathlib.Core.Option.{Option, none, some}
use coap_server_rs.Base.Tests.{if◌then◌else◌}
use coap_server_rs.Base.Equality.{◌==◌, nat_eq}
use coap_server_rs.Base.Lists.{length}
use coap_server_rs.Base.Texts.{Text, is_empty}

-- `str::strip_prefix`
abbrev strip_prefix : Text → Text → Option Text
strip_prefix [] text = some text
strip_prefix (p ∷ pattern) [] = none
strip_prefix (p ∷ pattern) (c ∷ text) =
    let rest = strip_prefix pattern text in if p == c then rest else none

-- `str::replace` by the empty text, for a pattern that is not empty: every occurrence goes, from the
-- left. One round for each character of the text is enough, since a round takes one or more.
abbrev replace_rounds : ℕ → Text → Text → Text
replace_rounds zero pattern text = text
replace_rounds (suc n) pattern [] = []
replace_rounds (suc n) pattern (c ∷ text) = elim (strip_prefix pattern (c ∷ text)) [
  | some rest ↦ replace_rounds n pattern rest
  | none ↦ c ∷ replace_rounds n pattern text
]

-- The empty pattern is between all characters, and its replacement by the empty text changes nothing.
unfoldable pub replace : Text → Text → Text
replace text pattern = if is_empty pattern then text else replace_rounds (length text) pattern text
