-- ===== src/Observers/Detach.antt =====
-- Detaching in observers.rs: round trips, the reachable holders, and two handles for one path.
use coap_server_rs.Base.{
  ℕ, suc, ◌≡◌, ◌≢◌, refl, ap, ◌∙◌, sym, inl, inr, true, false, none, some, List, arith, Text, get,
  remove, get-insert, get-insert_self, get-insert_ne, get-remove, remove-All, All-mono,
  Option-cases, Bool-cases, nat_eq, list_eq, if◌then◌else◌, ◌==◌, ==-refl, returned, panicked,
  values,
}
use coap_server_rs.PathMatcher.{lookup_exact, insert as matcher_insert, remove as matcher_remove}
use coap_server_rs.Observers.{
  Observers, ObserversHolder, Attached, notify_change_all, notify_change_for_path, attach, detach,
  new_holder, points_to,
}
use coap_server_rs.Observers.Notify.{
  IsHolder, IsKeyed, lookup_exact-IsKeyed, notify_change_for_path_lem,
}
use coap_server_rs.Observers.Attach.{
  new_holder-IsHolder, attach-IsHolder, notify_change_all-IsHolder, notify_change_for_path-IsHolder,
  detached-IsHolder, points_to_absent,
}

module _ {Tx : Type 0} where
  abbrev pub without : ObserversHolder Tx → Attached → ObserversHolder Tx
  without h a = record h {
    inner = record { map = remove a.key h.inner.map };
    arcs = remove a.value h.arcs;
  }

  -- Detaching a handle that the table still holds does not panic: it gives back the handle as the
  -- notifications have left it, and takes away its path and its object and no other.
  pub detach_attached :
      (h : ObserversHolder Tx) (a : Attached) (o : Observers Tx)
      → IsHolder h
      → lookup_exact h.inner a.key ≡ some a.value
      → get a.value h.arcs ≡ some o
      → (detach h a ≡ returned (without h a, o))
        × ((key : List Text)
            → lookup_exact (without h a).inner key
              ≡ (if a.key == key then none else lookup_exact h.inner key))
        × ((arc : ℕ)
            → get arc (without h a).arcs ≡ (if a.value == arc then none else get arc h.arcs))
  unfolding detach matcher_remove lookup_exact
  detach_attached h a o k here g = (
    let there : get a.key h.inner.map ≡ some a.value = here in rw (detach, there, alone, g) refl,
    λ key. get-remove a.key key h.inner.map,
    λ arc. get-remove a.value arc h.arcs,
  )
    where
      mine : IsKeyed h.arcs (a.key, a.value)
      mine = lookup_exact-IsKeyed h a.key a.value k here

      apart : (b : List Text × ℕ) → IsKeyed h.arcs b × (b.0 ≢ a.key) → b.1 ≢ a.value
      apart b ((p, e, q), n) same =
          let e' : get a.value h.arcs ≡ some p = rw same at e in
          let one : p ≡ mine.0 = let m = mine.1 in cc in
          n (sym q ∙ ap (λ o. o.relative_path_key) one ∙ mine.2)

      alone : points_to a.value (values (remove a.key h.inner.map)) ≡ false
      alone = points_to_absent a.value (remove a.key h.inner.map) (
          All-mono _ _ (remove a.key h.inner.map) apart
            (remove-All (IsKeyed h.arcs) a.key h.inner.map k.entries))

  detach-IsHolder :
      (h r : ObserversHolder Tx) (a : Attached) (o : Observers Tx)
      → detach h a ≡ returned (r, o)
      → IsHolder h
      → IsHolder r
  unfolding detach matcher_remove
  detach-IsHolder h r a o e k = elim (Option-cases (get a.key h.inner.map)) [
    | inl n ↦ absurd (let q : panicked ≡ returned (r, o) = rw (detach, n) at e in cc)
    | inr (arc, s) ↦ elim (Bool-cases (points_to a.value (values (remove a.key h.inner.map)))) [
      | inl more ↦ absurd (let q : panicked ≡ returned (r, o) = rw (detach, s, more) at e in cc)
      | inr alone ↦ elim (Option-cases (get a.value h.arcs)) [
        | inl n ↦ absurd (let q : panicked ≡ returned (r, o) = rw (detach, s, alone, n) at e in cc)
        | inr (p, g) ↦
            let q : returned (without h a, p) ≡ returned (r, o) = rw (detach, s, alone, g) at e in
            let same : without h a ≡ r =
              let u : returned (without h a, p) ≡ returned (r, o) = q in cc in
            rw⁻¹ same (detached-IsHolder h a.key a.value k alone)
      ]
    ]
  ]

  -- The holders that calls lead to from a new one, where a call of `detach` can be for any handle.
  pub data Reachable : ObserversHolder Tx → Type 0 where
    created : Reachable new_holder
    attached : (h : _) (o : Observers Tx) → Reachable h → Reachable (attach h o).0
    notified : (h : _) → Reachable h → Reachable (notify_change_all h).0
    notified_for : (h : _) (path : Text) → Reachable h → Reachable (notify_change_for_path h path).0
    detached :
        (h r : _) (a : Attached) (o : Observers Tx)
        → detach h a ≡ returned (r, o)
        → Reachable h
        → Reachable r

  -- In every holder that calls lead to, each path points to a handle of just that path, and every
  -- handle has a number that has been given out.
  pub Reachable-IsHolder : (h : ObserversHolder Tx) → Reachable h → IsHolder h
  Reachable-IsHolder h created = new_holder-IsHolder
  Reachable-IsHolder h (attached h' o s) = attach-IsHolder h' o (Reachable-IsHolder h' s)
  Reachable-IsHolder h (notified h' s) = notify_change_all-IsHolder h' (Reachable-IsHolder h' s)
  Reachable-IsHolder h (notified_for h' path s) =
      notify_change_for_path-IsHolder h' path (Reachable-IsHolder h' s)
  Reachable-IsHolder h (detached h' r a o e s) =
      detach-IsHolder h' h a o e (Reachable-IsHolder h' s)

  detach_absent :
      (h : ObserversHolder Tx) (a : Attached)
      → lookup_exact h.inner a.key ≡ none
      → detach h a ≡ panicked
  unfolding detach matcher_remove lookup_exact
  detach_absent h a e = let e' : get a.key h.inner.map ≡ none = e in rw (detach, e') refl

  -- Of two handles that are attached for one path the first is lost: no notification for a path
  -- reaches it any more, and when the second has been detached, which gives it back, detaching the
  -- first panics.
  pub attach_twice_panics :
      (h : ObserversHolder Tx) (o p : Observers Tx)
      → IsHolder h
      → o.relative_path_key ≡ p.relative_path_key
      → let first = attach h o in
        let second = attach first.0 p in
        ((path : Text) → get first.1.value (notify_change_for_path second.0 path).0.arcs ≡ some o)
        × ((r : ObserversHolder Tx) × (detach second.0 second.1 ≡ returned (r, p))
            × (detach r first.1 ≡ panicked))
  unfolding attach matcher_insert lookup_exact
  attach_twice_panics h o p k same =
      let first = attach h o in
      let second = attach first.0 p in
      let kept = attach-IsHolder first.0 p (attach-IsHolder h o k) in
      let table = (attach h o).0.inner.map in
      let last : lookup_exact second.0.inner p.relative_path_key ≡ some second.1.value =
        get-insert_self p.relative_path_key (suc h.next_arc) table in
      let newer : get second.1.value second.0.arcs ≡ some p =
        get-insert_self (suc h.next_arc) p first.0.arcs in
      let older : get first.1.value second.0.arcs ≡ some o =
        get-insert_ne (suc h.next_arc) h.next_arc p first.0.arcs (λ e. omega arith)
        ∙ get-insert_self h.next_arc o h.arcs in
      let back = detach_attached second.0 second.1 p kept last newer in
      let lost : lookup_exact second.0.inner o.relative_path_key ≢ some first.1.value =
        let equal : (p.relative_path_key == o.relative_path_key) ≡ true =
          rw same (==-refl p.relative_path_key) in
        let taken : lookup_exact second.0.inner o.relative_path_key ≡ some (suc h.next_arc) =
          get-insert p.relative_path_key o.relative_path_key (suc h.next_arc) table
          ∙ rw equal refl in
        λ e.
          let q : some (suc h.next_arc) ≡ some h.next_arc = sym taken ∙ e in
          absurd (ground arith) in
      let free : lookup_exact (without second.0 second.1).inner o.relative_path_key ≡ none =
        back.1 o.relative_path_key ∙ rw (same, ==-refl p.relative_path_key) refl in
      (
        λ path. (notify_change_for_path_lem second.0 path first.1.value o kept older).2 lost,
        (without second.0 second.1, back.0, detach_absent (without second.0 second.1) first.1 free),
      )
