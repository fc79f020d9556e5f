-- ===== src/Base/Texts.antt =====
-- Text and bytes as lists of numbers: a `String` by its characters, a `Vec<u8>` by its bytes.
-- `str::split`, `slice::split` and `join`, with a single separator.
use Prim.Native.Char.{code}
use Prim.Native.String.{String}
use Prim.Native.Nat.{ℕ}
use mathlib.Core.Path.{◌≡◌, refl, ap, sym, ◌∙◌}
use mathlib.Core.Logic.{◌≢◌, inl, inr}
use mathlib.Core.Bool.{Bool, true, false}
use mathlib.Core.List.{List, [], ◌∷◌, ◌++◌}
use native.Mathlib.Omega.{arith}
use coap_server_rs.Base.Tests.{if◌then◌else◌, nat_beq, Bool-cases}
use coap_server_rs.Base.Equality.{PartialEq, list_eq, nat_eq}
use coap_server_rs.Base.Lists.{All}

abbrev pub Text : Type 0
Text = List ℕ

abbrev pub text_eq : PartialEq Text
text_eq = list_eq

abbrev pub codes : String → Text
codes String.[] = []
codes (String.◌∷◌ c s) = code c ∷ codes s

abbrev pub is_empty {ℓ} : {A : Type ℓ} → List A → Bool
is_empty [] = true
is_empty (x ∷ xs) = false

-- Puts a character before the first part.
abbrev pub push_front : ℕ → List Text → List Text
push_front c [] = (c ∷ []) ∷ []
push_front c (p ∷ ps) = (c ∷ p) ∷ ps

unfoldable pub split_on : ℕ → Text → List Text
split_on sep [] = [] ∷ []
split_on sep (c ∷ s) =
    let rest = split_on sep s in if nat_beq c sep then [] ∷ rest else push_front c rest

unfoldable pub join : Text → List Text → Text
join sep [] = []
join sep (p ∷ []) = p
join sep (p ∷ q ∷ ps) = p ++ (sep ++ join sep (q ∷ ps))

abbrev pub IsFreeOf : ℕ → Text → Type 0
IsFreeOf sep p = All (λ c. c ≢ sep) p

pub split_on_last : (sep : ℕ) (p : Text) → IsFreeOf sep p → split_on sep p ≡ p ∷ []
unfolding split_on
split_on_last sep [] h = refl
split_on_last sep (c ∷ p) h = ground (arith, split_on_last sep p h.1)

pub split_on-append :
    (sep : ℕ) (p s : Text) → IsFreeOf sep p → split_on sep (p ++ sep ∷ s) ≡ p ∷ split_on sep s
unfolding split_on
split_on-append sep [] s h = ground arith
split_on-append sep (c ∷ p) s h = ground (arith, split_on-append sep p s h.1)

push_front-IsFreeOf :
    (sep c : ℕ) (ps : List Text)
    → c ≢ sep
    → All (IsFreeOf sep) ps
    → All (IsFreeOf sep) (push_front c ps)
push_front-IsFreeOf sep c [] h a = ((h, tt), tt)
push_front-IsFreeOf sep c (p ∷ ps) h a = ((h, a.0), a.1)

pub split_on-IsFreeOf : (sep : ℕ) (s : Text) → All (IsFreeOf sep) (split_on sep s)
unfolding split_on
split_on-IsFreeOf sep [] = (tt, tt)
split_on-IsFreeOf sep (c ∷ s) =
    ground (arith, split_on-IsFreeOf sep s, push_front-IsFreeOf sep c (split_on sep s))

split_on-cons : (sep : ℕ) (s : Text) → (p : Text) × (ps : List Text) × (split_on sep s ≡ p ∷ ps)
unfolding split_on
split_on-cons sep [] = ([], [], refl)
split_on-cons sep (c ∷ s) = elim (Bool-cases (nat_beq c sep)) [
  | inl same ↦ ([], split_on sep s, rw same refl)
  | inr other ↦ let (p, ps, e) = split_on-cons sep s in (c ∷ p, ps, rw (other, e) refl)
]

join_longer :
    (sep c : ℕ) (p : Text) (ps : List Text)
    → join (sep ∷ []) ((c ∷ p) ∷ ps) ≡ c ∷ join (sep ∷ []) (p ∷ ps)
unfolding join
join_longer sep c p [] = refl
join_longer sep c p (q ∷ ps) = refl

-- Joining the parts of a split gives the text back.
pub join-split_on : (sep : ℕ) (s : Text) → join (sep ∷ []) (split_on sep s) ≡ s
unfolding split_on join
join-split_on sep [] = refl
join-split_on sep (c ∷ s) =
    let (p, ps, e) = split_on-cons sep s in
    let ih : join (sep ∷ []) (p ∷ ps) ≡ s = rw e at (join-split_on sep s) in
    elim (Bool-cases (nat_beq c sep)) [
      | inl same ↦
          let is_sep : c ≡ sep = ground arith in
          rw (same, e) (ap (◌∷◌ sep) ih ∙ ap (λ x. x ∷ s) (sym is_sep))
      | inr other ↦ rw (other, e) (join_longer sep c p ps ∙ ap (◌∷◌ c) ih)
    ]
