-- ===== src/Base/Maps.antt =====
-- `HashMap<K, V>` as an association list: `get`, `insert`, `remove`, `values`, `from_iter`.
-- The order of the entries stands for the map's iteration order.
use mathlib.Core.Path.{◌≡◌, refl, ap, ◌∙◌}
use mathlib.Core.Logic.{◌≢◌, inl, inr}
use mathlib.Core.Bool.{false}
use mathlib.Core.List.{List, [], ◌∷◌, ◌++◌, map}
use coap_server_rs.Base.Lists.{All}
use mathlib.Core.Option.{Option, none, some}
use native.Mathlib.Omega.{arith}
use coap_server_rs.Base.Tests.{if◌then◌else◌, Bool-cases}
use coap_server_rs.Base.Equality.{PartialEq, ◌==◌}

abbrev pub Dict {ℓ κ} : Type ℓ → Type κ → Type (ℓ ⊔ κ)
Dict K V = List (K × V)

module _ {ℓ κ} {K : Type ℓ} {V : Type κ} ⦃e : PartialEq K⦄ where
  unfoldable pub get : K → Dict K V → Option V
  get k [] = none
  get k ((j, v) ∷ m) = if j == k then some v else get k m

  -- `HashMap::insert`: an equal key keeps its place and gets the new value.
  unfoldable pub insert : K → V → Dict K V → Dict K V
  insert k v [] = (k, v) ∷ []
  insert k v ((j, w) ∷ m) = if j == k then (j, v) ∷ m else (j, w) ∷ insert k v m

  unfoldable pub remove : K → Dict K V → Dict K V
  remove k [] = []
  remove k ((j, w) ∷ m) = let rest = remove k m in if j == k then rest else (j, w) ∷ rest

  pub get-insert :
      (k j : K) (v : V) (m : Dict K V) → get j (insert k v m) ≡ (if k == j then some v else get j m)
  unfolding get insert
  get-insert k j v [] = refl
  get-insert k j v ((i, w) ∷ m) =
      ground (arith, e.eq_iff k j, e.eq_iff i k, e.eq_iff i j, get-insert k j v m)

  pub get-remove :
      (k j : K) (m : Dict K V) → get j (remove k m) ≡ (if k == j then none else get j m)
  unfolding get remove
  get-remove k j [] = ground arith
  get-remove k j ((i, w) ∷ m) =
      ground (arith, e.eq_iff k j, e.eq_iff i k, e.eq_iff i j, get-remove k j m)

  -- `HashMap::from_iter`: later entries replace earlier ones.
  unfoldable pub extend : List (K × V) → Dict K V → Dict K V
  extend [] m = m
  extend ((k, v) ∷ es) m = extend es (insert k v m)

  pub get-insert_self : (k : K) (v : V) (m : Dict K V) → get k (insert k v m) ≡ some v
  get-insert_self k v m = rw (get-insert k k v m, (e.eq_iff k k).0 refl)

  pub get-insert_ne : (k j : K) (v : V) (m : Dict K V) → k ≢ j → get j (insert k v m) ≡ get j m
  get-insert_ne k j v m h = get-insert k j v m ∙ ground (arith, e.eq_iff k j)

  pub extend-append :
      (xs ys : List (K × V)) (m : Dict K V) → extend (xs ++ ys) m ≡ extend ys (extend xs m)
  unfolding extend
  extend-append [] ys m = refl
  extend-append ((k, v) ∷ xs) ys m = extend-append xs ys (insert k v m)

  -- Entries of other keys leave a key alone.
  pub get-extend :
      (k : K) (xs : List (K × V)) (m : Dict K V)
      → All (λ b. b.0 ≢ k) xs
      → get k (extend xs m) ≡ get k m
  unfolding extend
  get-extend k [] m h = refl
  get-extend k ((j, v) ∷ xs) m h = get-extend k xs (insert j v m) h.1 ∙ get-insert_ne j k v m h.0

  -- A key has the value of its last entry.
  pub get-extend_last :
      (k : K) (v : V) (xs ys : List (K × V)) (m : Dict K V)
      → All (λ b. b.0 ≢ k) ys
      → get k (extend (xs ++ (k, v) ∷ ys) m) ≡ some v
  unfolding extend
  get-extend_last k v xs ys m h =
      ap (get k) (extend-append xs ((k, v) ∷ ys) m)
      ∙ get-extend k ys (insert k v (extend xs m)) h
      ∙ get-insert_self k v (extend xs m)

  -- A key that differs from every key of the map has no value in it.
  pub get_absent : (k : K) (m : Dict K V) → All (λ b. b.0 ≢ k) m → get k m ≡ none
  unfolding get
  get_absent k [] h = refl
  get_absent k ((j, v) ∷ m) h = ground (arith, e.eq_iff j k, get_absent k m h.1)

  module _ {μ} (P : K → Type μ) where
    pub All-insert :
        (k : K) (v : V) (m : Dict K V) → P k → All (λ b. P b.0) m → All (λ b. P b.0) (insert k v m)
    unfolding insert
    All-insert k v [] p h = (p, tt)
    All-insert k v ((j, w) ∷ m) p h = elim (Bool-cases (j == k)) [
      | inl same ↦ rw same (h.0, h.1)
      | inr other ↦ rw other (h.0, All-insert k v m p h.1)
    ]

    pub All-remove : (k : K) (m : Dict K V) → All (λ b. P b.0) m → All (λ b. P b.0) (remove k m)
    unfolding remove
    All-remove k [] h = tt
    All-remove k ((j, w) ∷ m) h = elim (Bool-cases (j == k)) [
      | inl same ↦ rw same (All-remove k m h.1)
      | inr other ↦ rw other (h.0, All-remove k m h.1)
    ]

abbrev pub values {ℓ κ} : {K : Type ℓ} {V : Type κ} → Dict K V → List V
values m = map (λ b. b.1) m

pub All-keys_mono {ℓ κ} :
    {K : Type ℓ} {V : Type κ} (P Q : K → Type 0) (m : Dict K V)
    → ((k : K) → P k → Q k)
    → All (λ b. P b.0) m
    → All (λ b. Q b.0) m
All-keys_mono P Q [] f h = tt
All-keys_mono P Q (b ∷ m) f h = (f b.0 h.0, All-keys_mono P Q m f h.1)

-- What holds of every entry.
module _ {ℓ κ μ} {K : Type ℓ} {V : Type κ} ⦃e : PartialEq K⦄ (P : K × V → Type μ) where
  pub get-All : (k : K) (v : V) (m : Dict K V) → All P m → get k m ≡ some v → P (k, v)
  unfolding get
  get-All k v ((j, w) ∷ m) h g = elim (Bool-cases (j == k)) [
    | inl same ↦
        let keys : j ≡ k = (e.eq_iff j k).1 same in
        let vals : w ≡ v = let g' : some w ≡ some v = rw same at g in cc in rw⁻¹ (keys, vals) h.0
    | inr other ↦ get-All k v m h.1 (let g' : get k m ≡ some v = rw other at g in g')
  ]
  get-All k v [] h g = absurd (let q : none ≡ some v = g in cc)

  pub insert-All : (k : K) (v : V) (m : Dict K V) → P (k, v) → All P m → All P (insert k v m)
  unfolding insert
  insert-All k v [] p h = (p, tt)
  insert-All k v ((j, w) ∷ m) p h = elim (Bool-cases (j == k)) [
    | inl same ↦ rw same (rw ((e.eq_iff j k).1 same) p, h.1)
    | inr other ↦ rw other (h.0, insert-All k v m p h.1)
  ]

  pub remove-All : (k : K) (m : Dict K V) → All P m → All (λ b. P b × (b.0 ≢ k)) (remove k m)
  unfolding remove
  remove-All k [] h = tt
  remove-All k ((j, w) ∷ m) h = elim (Bool-cases (j == k)) [
    | inl same ↦ rw same (remove-All k m h.1)
    | inr other ↦ rw other ((h.0, λ q. differ j k other q), remove-All k m h.1)
  ]
    where
      differ : (j k : K) → (j == k) ≡ false → j ≡ k → ⊥
      differ j k f q = let t = (e.eq_iff j k).0 q in cc

pub All-mono {ℓ μ ν} :
    {A : Type ℓ} (P : A → Type μ) (Q : A → Type ν) (xs : List A)
    → ((a : A) → P a → Q a)
    → All P xs
    → All Q xs
All-mono P Q [] f h = tt
All-mono P Q (x ∷ xs) f h = (f x h.0, All-mono P Q xs f h.1)
