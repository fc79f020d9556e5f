-- ===== src/Observers/Attach.antt =====
-- Attaching and detaching handles in observers.rs: the invariant of a holder over every call.
use coap_server_rs.Base.{
  ℕ, suc, ◌<◌, ◌≡◌, ◌≢◌, refl, ◌∙◌, sym, false, none, some, List, [], ◌∷◌, arith, Text, Dict, get,
  insert, remove, get-insert_self, get-insert_ne, get-remove, insert-All, remove-All, All-mono, All,
  nat_eq, list_eq, values, ℕ_discrete, nat_beq_iff,
}
use coap_server_rs.PathMatcher.{new_empty, insert as matcher_insert}
use coap_server_rs.Observers.{
  Observers, ObserversHolder, notify_change_all, notify_change_for_path, attach, new_holder,
  points_to,
}
use coap_server_rs.Observers.Notify.{IsHolder, IsKeyed}
use coap_server_rs.Observers.Keys.{KeepsKeys-IsHolder, notify_arcs-KeepsKeys}

pub points_to_absent :
    (arc : ℕ) (m : Dict (List Text) ℕ) → All (λ b. b.1 ≢ arc) m → points_to arc (values m) ≡ false
points_to_absent arc [] h = refl
points_to_absent arc ((k, a) ∷ m) h = ground (arith, points_to_absent arc m h.1, h.0)

points_to-All :
    (arc : ℕ) (m : Dict (List Text) ℕ) → points_to arc (values m) ≡ false → All (λ b. b.1 ≢ arc) m
points_to-All arc [] h = tt
points_to-All arc ((k, a) ∷ m) h = elim (ℕ_discrete arc a) [
  | yes e ↦ absurd (ground arith)
  | no n ↦ (λ e. n (sym e), points_to-All arc m (ground arith))
]

All-both :
    {A : Type 0} (P Q R : A → Type 0) (xs : List A)
    → ((a : A) → P a → Q a → R a)
    → All P xs
    → All Q xs
    → All R xs
All-both P Q R [] f h k = tt
All-both P Q R (x ∷ xs) f h k = (f x h.0 k.0, All-both P Q R xs f h.1 k.1)

module _ {Tx : Type 0} where
  pub new_holder-IsHolder : IsHolder (new_holder {Tx = Tx})
  unfolding new_holder new_empty get
  new_holder-IsHolder = record {
    entries = tt;
    fresh = λ arc o e. let q : none ≡ some o = e in absurd cc;
  }

  pub attach-IsHolder :
      (h : ObserversHolder Tx) (o : Observers Tx) → IsHolder h → IsHolder (attach h o).0
  unfolding attach matcher_insert
  attach-IsHolder h o k = record {
    entries =
        insert-All (IsKeyed later) o.relative_path_key h.next_arc h.inner.map
          (o, get-insert_self h.next_arc o h.arcs, refl)
          (All-mono (IsKeyed h.arcs) (IsKeyed later) h.inner.map kept k.entries);
    fresh = made;
  }
    where
      later : Dict ℕ (Observers Tx)
      later = insert h.next_arc o h.arcs

      kept : (b : List Text × ℕ) → IsKeyed h.arcs b → IsKeyed later b
      kept b (p, e, q) =
          let below = k.fresh b.1 p e in
          let other : h.next_arc ≢ b.1 = λ e. omega arith in
          (p, get-insert_ne h.next_arc b.1 o h.arcs other ∙ e, q)

      made : (arc : ℕ) (p : Observers Tx) → get arc later ≡ some p → arc < suc h.next_arc
      made arc p e = elim (ℕ_discrete h.next_arc arc) [
        | yes same ↦ omega arith
        | no other ↦
            let below = k.fresh arc p (sym (get-insert_ne h.next_arc arc o h.arcs other) ∙ e) in
            omega arith
      ]

  pub notify_change_all-IsHolder :
      (h : ObserversHolder Tx) → IsHolder h → IsHolder (notify_change_all h).0
  unfolding notify_change_all
  notify_change_all-IsHolder h k = KeepsKeys-IsHolder h _ k (notify_arcs-KeepsKeys _ h.arcs)

  pub notify_change_for_path-IsHolder :
      (h : ObserversHolder Tx) (path : Text)
      → IsHolder h
      → IsHolder (notify_change_for_path h path).0
  unfolding notify_change_for_path
  notify_change_for_path-IsHolder h path k =
      KeepsKeys-IsHolder h _ k (notify_arcs-KeepsKeys _ h.arcs)

  pub detached-IsHolder :
      (h : ObserversHolder Tx) (key : List Text) (arc : ℕ)
      → IsHolder h
      → points_to arc (values (remove key h.inner.map)) ≡ false
      → IsHolder
          (record h { inner = record { map = remove key h.inner.map }; arcs = remove arc h.arcs })
  detached-IsHolder h key arc k f = record {
    entries =
        All-both (λ b. IsKeyed h.arcs b × (b.0 ≢ key)) (λ b. b.1 ≢ arc)
          (IsKeyed (remove arc h.arcs)) (remove key h.inner.map) kept
          (remove-All (IsKeyed h.arcs) key h.inner.map k.entries)
          (points_to-All arc (remove key h.inner.map) f);
    fresh = made;
  }
    where
      apart : (a : ℕ) → a ≢ arc → get a (remove arc h.arcs) ≡ get a h.arcs
      apart a n = get-remove arc a h.arcs ∙ ground (arith, nat_beq_iff arc a)

      kept :
          (b : List Text × ℕ)
          → IsKeyed h.arcs b × (b.0 ≢ key)
          → b.1 ≢ arc
          → IsKeyed (remove arc h.arcs) b
      kept b ((o, e, q), _) n = (o, apart b.1 n ∙ e, q)

      made : (a : ℕ) (o : Observers Tx) → get a (remove arc h.arcs) ≡ some o → a < h.next_arc
      made a o e = elim (ℕ_discrete a arc) [
        | yes same ↦
            let gone : get a (remove arc h.arcs) ≡ none =
              get-remove arc a h.arcs ∙ ground (arith, nat_beq_iff arc a) in
            absurd cc
        | no other ↦ k.fresh a o (sym (apart a other) ∙ e)
      ]
