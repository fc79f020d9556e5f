-- ===== src/Base/Entries.antt =====
-- What a map holds that is made from a list of entries.
use mathlib.Core.Path.{◌≡◌, refl, ap, ◌∙◌}
use mathlib.Core.Logic.{inl, inr}
use mathlib.Core.List.{List, [], ◌∷◌}
use mathlib.Core.Option.{none, some}
use coap_server_rs.Base.Tests.{Bool-cases}
use coap_server_rs.Base.Equality.{PartialEq, ◌==◌}
use coap_server_rs.Base.Lists.{All, Member}
use coap_server_rs.Base.Maps.{Dict, get, insert, extend, get-insert, get-insert_self, insert-All}

module _ {K V : Type 0} ⦃e : PartialEq K⦄ where
  -- Every entry of the key has the value.
  abbrev pub IsOnly : K → V → List (K × V) → Type 0
  IsOnly k v es = All (λ b. b.0 ≡ k → b.1 ≡ v) es

  get-extend_kept :
      (k : K) (v : V) (es : List (K × V)) (m : Dict K V)
      → IsOnly k v es
      → get k m ≡ some v
      → get k (extend es m) ≡ some v
  unfolding extend
  get-extend_kept k v [] m h g = g
  get-extend_kept k v ((j, w) ∷ es) m h g = get-extend_kept k v es (insert j w m) h.1 (
      get-insert j k w m ∙ elim (Bool-cases (j == k)) [
        | inl y ↦ let same : w ≡ v = h.0 ((e.eq_iff j k).1 y) in rw (y, same) refl
        | inr n ↦ rw n g
      ])

  pub get-extend-Member :
      (k : K) (v : V) (es : List (K × V)) (m : Dict K V)
      → IsOnly k v es
      → Member (k, v) es
      → get k (extend es m) ≡ some v
  unfolding extend
  get-extend-Member k v [] m h q = absurd q
  get-extend-Member k v ((j, w) ∷ es) m h (inr q) = get-extend-Member k v es (insert j w m) h.1 q
  get-extend-Member k v ((j, w) ∷ es) m h (inl q) =
      let keys : k ≡ j = ap (λ p. p.0) q in
      let vals : v ≡ w = ap (λ p. p.1) q in
      get-extend_kept k v es (insert j w m) h.1 (rw (keys, vals) (get-insert_self j w m))

  pub extend-All :
      (P : K × V → Type 0) (es : List (K × V)) (m : Dict K V)
      → All P es
      → All P m
      → All P (extend es m)
  unfolding extend
  extend-All P [] m h g = g
  extend-All P ((j, w) ∷ es) m h g = extend-All P es (insert j w m) h.1 (insert-All P j w m h.0 g)

  pub get-Member : (k : K) (v : V) (m : Dict K V) → get k m ≡ some v → Member (k, v) m
  unfolding get
  get-Member k v [] g = let q : none ≡ some v = g in absurd cc
  get-Member k v ((j, w) ∷ m) g = elim (Bool-cases (j == k)) [
    | inl y ↦
        let keys : j ≡ k = (e.eq_iff j k).1 y in
        let g' : some w ≡ some v = rw y at g in let vals : w ≡ v = cc in inl (rw (keys, vals) refl)
    | inr n ↦ let g' : get k m ≡ some v = rw n at g in inr (get-Member k v m g')
  ]
