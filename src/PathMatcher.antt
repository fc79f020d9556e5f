-- ===== src/PathMatcher.antt =====
-- coap-server/src/app/path_matcher.rs: inexact lookup of a request's path. A path is the list of
-- its segments, and a segment is the list of its characters.
pub mod Lookup
pub mod Keys
mod Tests
use coap_server_rs.Base.{
  ℕ, zero, suc, Bool, not, Option, none, some, List, [], ◌∷◌, ◌++◌, map, Dict, get,
  insert as dict_insert, remove as dict_remove, values as dict_values, extend, nat_eq, list_eq,
  Text, split_on, is_empty, keep, take, length,
}

pub record PathMatcher (V : Type 0) : Type 0 where
  pub map : Dict (List Text) V

pub record MatchedResult (V : Type 0) : Type 0 where
  pub value : V
  pub matched_index : ℕ

unfoldable pub key_from_path : Text → List Text
unfolding split_on
key_from_path path = keep (λ s. not (is_empty s)) (split_on b'/' path)

module _ {V : Type 0} where
  unfoldable pub new_empty : PathMatcher V
  new_empty = record { map = [] }

  unfoldable pub from_iter : List (List Text × V) → PathMatcher V
  unfolding extend dict_insert
  from_iter entries = record { map = extend entries [] }

  -- The entries of the source map come in the order in which it is iterated.
  unfoldable pub from_path_strings : Dict Text V → PathMatcher V
  unfolding from_iter key_from_path
  from_path_strings src = from_iter (map (λ e. (key_from_path e.0, e.1)) src)

  abbrev matched : Option V → ℕ → Option (MatchedResult V)
  matched none depth = none
  matched (some v) depth = some (record { value = v; matched_index = depth })

  -- The loop of `lookup`, from a search depth down to 0.
  unfoldable pub lookup_from : Dict (List Text) V → List Text → ℕ → Option (MatchedResult V)
  unfolding get
  lookup_from m path zero = matched (get [] m) 0
  lookup_from m path (suc depth) = elim (get (take (suc depth) path) m) [
    | some v ↦ some (record { value = v; matched_index = suc depth })
    | none ↦ lookup_from m path depth
  ]

  unfoldable pub lookup : PathMatcher V → List Text → Option (MatchedResult V)
  unfolding lookup_from
  lookup self path = lookup_from self.map path (length path)

  abbrev pushed : Option (MatchedResult V) → List (MatchedResult V) → List (MatchedResult V)
  pushed none rest = rest
  pushed (some r) rest = r ∷ rest

  -- The loop of `match_all`; the deepest match comes first.
  unfoldable pub match_all_from : Dict (List Text) V → List Text → ℕ → List (MatchedResult V)
  unfolding get
  match_all_from m path zero = pushed (matched (get [] m) 0) []
  match_all_from m path (suc depth) =
      pushed (matched (get (take (suc depth) path) m) (suc depth)) (match_all_from m path depth)

  unfoldable pub match_all : PathMatcher V → List Text → List (MatchedResult V)
  unfolding match_all_from
  match_all self path = match_all_from self.map path (length path)

  -- `HashMap::insert` and `remove` also return the value that was there.
  unfoldable pub insert : PathMatcher V → List Text → V → PathMatcher V × Option V
  unfolding get dict_insert
  insert self key value = (record { map = dict_insert key value self.map }, get key self.map)

  unfoldable pub remove : PathMatcher V → List Text → PathMatcher V × Option V
  unfolding get dict_remove
  remove self key = (record { map = dict_remove key self.map }, get key self.map)

  unfoldable pub values : PathMatcher V → List V
  values self = dict_values self.map

  unfoldable pub lookup_exact : PathMatcher V → List Text → Option V
  unfolding get
  lookup_exact self path = get path self.map
