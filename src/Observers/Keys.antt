-- ===== src/Observers/Keys.antt =====
-- Notifications in observers.rs change no path of a handle, and keep the invariant of the holder.
use coap_server_rs.Base.{
  ℕ, ◌<◌, ◌≡◌, refl, ap, ◌∙◌, ◌⊎◌, inl, inr, none, some, List, [], ◌∷◌, Text, Dict, get, insert,
  get-insert_self, get-insert_ne, All-mono, Option-cases, nat_eq, list_eq, ℕ_discrete,
}
use coap_server_rs.Observers.{Observers, ObserversHolder, notify_change, notify_arcs}
use coap_server_rs.Observers.Notify.{
  IsHolder, IsKeyed, notify_arcs_missing, notify_arcs_found, notify_no_arcs,
}

module _ {Tx : Type 0} where
  -- What the heap says of an object is kept but for its number.
  abbrev pub KeepsKeys : Dict ℕ (Observers Tx) → Dict ℕ (Observers Tx) → Type 0
  KeepsKeys heap later =
      (arc : ℕ)
      → ((get arc heap ≡ none) × (get arc later ≡ none))
        ⊎ ((o : Observers Tx) × (p : Observers Tx) × (get arc heap ≡ some o)
            × (get arc later ≡ some p)
            × (p.relative_path_key ≡ o.relative_path_key))

  notify_change-key :
      (o : Observers Tx) → (notify_change o).0.relative_path_key ≡ o.relative_path_key
  unfolding notify_change
  notify_change-key o = refl

  KeepsKeys-refl : (heap : Dict ℕ (Observers Tx)) → KeepsKeys heap heap
  KeepsKeys-refl heap arc = elim (Option-cases (get arc heap)) [
    | inl e ↦ inl (e, e)
    | inr (o, e) ↦ inr (o, o, e, e, refl)
  ]

  KeepsKeys-insert :
      (a : ℕ) (heap : Dict ℕ (Observers Tx)) (o : Observers Tx)
      → get a heap ≡ some o
      → KeepsKeys heap (insert a (notify_change o).0 heap)
  KeepsKeys-insert a heap o e arc = elim (ℕ_discrete a arc) [
    | yes same ↦ rw⁻¹ same (
        inr (
          o,
          (notify_change o).0,
          e,
          get-insert_self a (notify_change o).0 heap,
          notify_change-key o,
        ))
    | no other ↦ rw (get-insert_ne a arc (notify_change o).0 heap other) (KeepsKeys-refl heap arc)
  ]

  KeepsKeys-trans : (a b c : Dict ℕ (Observers Tx)) → KeepsKeys a b → KeepsKeys b c → KeepsKeys a c
  KeepsKeys-trans a b c f g arc = elim (f arc) [
    | inl h ↦ elim (g arc) [
      | inl h' ↦ inl (h.0, h'.1)
      | inr (o, p, e, e', q) ↦ absurd (let t = h.1 in cc)
    ]
    | inr (o, p, e, e', q) ↦ elim (g arc) [
      | inl h' ↦ absurd (let t = h'.0 in cc)
      | inr (o', p', d, d', q') ↦
          let same : o' ≡ p = cc in inr (o, p', e, d', q' ∙ ap (λ x. x.relative_path_key) same ∙ q)
    ]
  ]

  pub notify_arcs-KeepsKeys :
      (arcs : List ℕ) (heap : Dict ℕ (Observers Tx)) → KeepsKeys heap (notify_arcs arcs heap).0
  notify_arcs-KeepsKeys [] heap = rw (notify_no_arcs heap) (KeepsKeys-refl heap)
  notify_arcs-KeepsKeys (a ∷ arcs) heap = elim (Option-cases (get a heap)) [
    | inl e ↦ rw (notify_arcs_missing a arcs heap e) (notify_arcs-KeepsKeys arcs heap)
    | inr (o, e) ↦
        let next = insert a (notify_change o).0 heap in
        rw (notify_arcs_found a arcs heap o e) (
          KeepsKeys-trans heap next (notify_arcs arcs next).0 (KeepsKeys-insert a heap o e)
            (notify_arcs-KeepsKeys arcs next))
  ]

  pub KeepsKeys-IsHolder :
      (h : ObserversHolder Tx) (later : Dict ℕ (Observers Tx))
      → IsHolder h
      → KeepsKeys h.arcs later
      → IsHolder (record h { arcs = later })
  KeepsKeys-IsHolder h later k f = record {
    entries = All-mono (IsKeyed h.arcs) (IsKeyed later) h.inner.map kept k.entries;
    fresh = made;
  }
    where
      kept : (b : List Text × ℕ) → IsKeyed h.arcs b → IsKeyed later b
      kept b (o, e, q) = elim (f b.1) [
        | inl n ↦ absurd (let t = n.0 in cc)
        | inr (o', p, e', d, q') ↦
            let same : o' ≡ o = cc in (p, d, q' ∙ ap (λ x. x.relative_path_key) same ∙ q)
      ]

      made : (arc : ℕ) (o : Observers Tx) → get arc later ≡ some o → arc < h.next_arc
      made arc o e = elim (f arc) [
        | inl n ↦ absurd (let t = n.1 in cc)
        | inr (o', p, e', d, q') ↦ k.fresh arc o' e'
      ]
