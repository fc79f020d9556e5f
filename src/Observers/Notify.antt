-- ===== src/Observers/Notify.antt =====
-- Which of the attached handles a notification of observers.rs reaches.
use coap_server_rs.Base.{
  ℕ, zero, suc, ◌≤◌, ◌<◌, ◌≡◌, ◌≢◌, refl, ap, ◌∙◌, sym, inl, inr, none, some, List, [], ◌∷◌, map,
  arith, take, length, Text, Dict, get, get-insert_self, get-insert_ne, get-All, All, insert,
  Option-cases, nat_eq, list_eq, Member, Member-map, length-take,
}
use coap_server_rs.PathMatcher.{
  MatchedResult, match_all_from, match_all, lookup_exact, key_from_path,
}
use coap_server_rs.PathMatcher.Lookup.{match_all_from_sound, match_all_iff}
use coap_server_rs.Observers.{
  Observers, ObserversHolder, notify_change, notify_arcs, notify_change_for_path,
}

abbrev pub IsPrefix : List Text → List Text → Type 0
IsPrefix key path = (n : ℕ) × (n ≤ length path) × (take n path ≡ key)

-- Pointers without a repetition.
abbrev AllDistinct : List ℕ → Type 0
AllDistinct [] = Unit {0}
AllDistinct (a ∷ arcs) = (Member a arcs → ⊥) × AllDistinct arcs

abbrev matched_arcs : Dict (List Text) ℕ → List Text → ℕ → List ℕ
matched_arcs m path d = map (λ r. r.value) (match_all_from m path d)

module _ {Tx : Type 0} where
  -- The entry points to a handle with the key that it stands under.
  abbrev pub IsKeyed : Dict ℕ (Observers Tx) → List Text × ℕ → Type 0
  IsKeyed heap entry =
      (o : Observers Tx) × (get entry.1 heap ≡ some o) × (o.relative_path_key ≡ entry.0)

  -- Each entry of the table is keyed, and every object of the heap has been made.
  pub record IsHolder (h : ObserversHolder Tx) : Type 0 where
    pub entries : All (IsKeyed h.arcs) h.inner.map
    pub fresh : (arc : ℕ) (o : Observers Tx) → get arc h.arcs ≡ some o → arc < h.next_arc

  pub lookup_exact-IsKeyed :
      (h : ObserversHolder Tx) (key : List Text) (arc : ℕ)
      → IsHolder h
      → lookup_exact h.inner key ≡ some arc
      → IsKeyed h.arcs (key, arc)
  unfolding lookup_exact
  lookup_exact-IsKeyed h key arc k e = get-All (IsKeyed h.arcs) key arc h.inner.map k.entries e

  pub notify_arcs_missing :
      (a : ℕ) (arcs : List ℕ) (heap : Dict ℕ (Observers Tx))
      → get a heap ≡ none
      → notify_arcs (a ∷ arcs) heap ≡ notify_arcs arcs heap
  unfolding notify_arcs
  notify_arcs_missing a arcs heap e = ground arith

  pub notify_arcs_found :
      (a : ℕ) (arcs : List ℕ) (heap : Dict ℕ (Observers Tx)) (o : Observers Tx)
      → get a heap ≡ some o
      → let rest = notify_arcs arcs (insert a (notify_change o).0 heap) in
        notify_arcs (a ∷ arcs) heap ≡ (rest.0, (o.notify_change_tx, (notify_change o).1) ∷ rest.1)
  unfolding notify_arcs
  notify_arcs_found a arcs heap o e = ground arith

  pub notify_no_arcs : (heap : Dict ℕ (Observers Tx)) → (notify_arcs [] heap).0 ≡ heap
  unfolding notify_arcs
  notify_no_arcs heap = refl

  notify_arcs_skips :
      (arcs : List ℕ) (heap : Dict ℕ (Observers Tx)) (arc : ℕ)
      → (Member arc arcs → ⊥)
      → get arc (notify_arcs arcs heap).0 ≡ get arc heap
  notify_arcs_skips [] heap arc h = ap (get arc) (notify_no_arcs heap)
  notify_arcs_skips (a ∷ arcs) heap arc h = elim (Option-cases (get a heap)) [
    | inl e ↦
        rw (notify_arcs_missing a arcs heap e) (notify_arcs_skips arcs heap arc (λ m. h (inr m)))
    | inr (o, e) ↦ rw (notify_arcs_found a arcs heap o e) (
        notify_arcs_skips arcs (insert a (notify_change o).0 heap) arc (λ m. h (inr m))
        ∙ get-insert_ne a arc (notify_change o).0 heap (λ q. h (inl (sym q))))
  ]

  notify_arcs_hits :
      (arcs : List ℕ) (heap : Dict ℕ (Observers Tx)) (arc : ℕ) (o : Observers Tx)
      → AllDistinct arcs
      → Member arc arcs
      → get arc heap ≡ some o
      → (get arc (notify_arcs arcs heap).0 ≡ some (notify_change o).0)
        × Member (o.notify_change_tx, (notify_change o).1) (notify_arcs arcs heap).1
  notify_arcs_hits [] heap arc o d m g = absurd m
  notify_arcs_hits (a ∷ arcs) heap arc o d (inl here) g =
      let g' : get a heap ≡ some o = rw here at g in
      let next = insert a (notify_change o).0 heap in
      rw (here, notify_arcs_found a arcs heap o g')
        (notify_arcs_skips arcs next a d.0 ∙ get-insert_self a (notify_change o).0 heap, inl refl)
  notify_arcs_hits (a ∷ arcs) heap arc o d (inr later) g = elim (Option-cases (get a heap)) [
    | inl e ↦ rw (notify_arcs_missing a arcs heap e) (notify_arcs_hits arcs heap arc o d.1 later g)
    | inr (p, e) ↦
        let other : a ≢ arc = λ q. d.0 (rw q later) in
        let rest =
          notify_arcs_hits arcs (insert a (notify_change p).0 heap) arc o d.1 later
            (get-insert_ne a arc (notify_change p).0 heap other ∙ g) in
        rw (notify_arcs_found a arcs heap p e) (rest.0, inr rest.1)
  ]

  one_key :
      (h : ObserversHolder Tx) (path : List Text) (i j arc : ℕ)
      → IsHolder h
      → i ≤ length path
      → j ≤ length path
      → lookup_exact h.inner (take i path) ≡ some arc
      → lookup_exact h.inner (take j path) ≡ some arc
      → i ≡ j
  one_key h path i j arc k hi hj f g =
      let a = lookup_exact-IsKeyed h (take i path) arc k f in
      let b = lookup_exact-IsKeyed h (take j path) arc k g in
      let same : a.0 ≡ b.0 = let p = a.1 in let q = b.1 in cc in
      let keys : take i path ≡ take j path = sym a.2 ∙ ap (λ o. o.relative_path_key) same ∙ b.2 in
      sym (length-take i path hi) ∙ ap length keys ∙ length-take j path hj

  matched_arcs-AllDistinct :
      (h : ObserversHolder Tx) (path : List Text) (d : ℕ)
      → IsHolder h
      → d ≤ length path
      → AllDistinct (matched_arcs h.inner.map path d)
  unfolding match_all_from lookup_exact
  matched_arcs-AllDistinct h path zero k le = elim (Option-cases (get [] h.inner.map)) [
    | inl e ↦ rw e tt
    | inr (a, e) ↦ rw e (λ m. m, tt)
  ]
  matched_arcs-AllDistinct h path (suc d) k le =
      elim (Option-cases (get (take (suc d) path) h.inner.map)) [
        | inl e ↦ rw e (matched_arcs-AllDistinct h path d k (omega arith))
        | inr (a, e) ↦ rw e (deeper a e, matched_arcs-AllDistinct h path d k (omega arith))
      ]
    where
      deeper :
          (a : ℕ)
          → get (take (suc d) path) h.inner.map ≡ some a
          → Member a (matched_arcs h.inner.map path d)
          → ⊥
      deeper a e m =
          let r = (Member-map (λ r. r.value) (match_all_from h.inner.map path d) a).0 m in
          let s = match_all_from_sound h.inner path d r.0 r.1 in
          let same = one_key h path r.0.matched_index (suc d) a k (omega arith) le (rw r.2 s.1) e in
          omega arith

  -- `notify_change_for_path` reaches exactly the attached handles whose own path is a prefix of the
  -- given one, the empty path and the whole one included: each of these gets its next number once
  -- and sends it on its channel; every other object, attached under a longer or another path or
  -- detached, keeps its state.
  pub notify_change_for_path_lem :
      (h : ObserversHolder Tx) (path : Text) (arc : ℕ) (o : Observers Tx)
      → IsHolder h
      → get arc h.arcs ≡ some o
      → (lookup_exact h.inner o.relative_path_key ≡ some arc
          → IsPrefix o.relative_path_key (key_from_path path)
          → (get arc (notify_change_for_path h path).0.arcs ≡ some (notify_change o).0)
            × Member (o.notify_change_tx, (notify_change o).1) (notify_change_for_path h path).1)
        × ((IsPrefix o.relative_path_key (key_from_path path) → ⊥)
            → get arc (notify_change_for_path h path).0.arcs ≡ some o)
        × ((lookup_exact h.inner o.relative_path_key ≢ some arc)
            → get arc (notify_change_for_path h path).0.arcs ≡ some o)
  unfolding notify_change_for_path match_all lookup_exact
  notify_change_for_path_lem h path arc o k g = (
    λ attached (n, le, e). notify_arcs_hits arcs h.arcs arc o distinct (reached n le e attached) g,
    λ apart. notify_arcs_skips arcs h.arcs arc (λ m. apart (prefix_of m).0) ∙ g,
    λ detached. notify_arcs_skips arcs h.arcs arc (λ m. detached (prefix_of m).1) ∙ g,
  )
    where
      key : List Text
      key = key_from_path path

      arcs : List ℕ
      arcs = matched_arcs h.inner.map key (length key)

      distinct : AllDistinct arcs
      distinct = matched_arcs-AllDistinct h key (length key) k (omega arith)

      reached :
          (n : ℕ)
          → n ≤ length key
          → take n key ≡ o.relative_path_key
          → lookup_exact h.inner o.relative_path_key ≡ some arc
          → Member arc arcs
      reached n le e attached =
          let r : MatchedResult ℕ = record { value = arc; matched_index = n } in
          (Member-map (λ r. r.value) (match_all_from h.inner.map key (length key)) arc).1
            (r, (match_all_iff h.inner key r).1 (le, rw e attached), refl)

      prefix_of :
          Member arc arcs
          → IsPrefix o.relative_path_key key × (lookup_exact h.inner o.relative_path_key ≡ some arc)
      prefix_of m =
          let r =
            (Member-map (λ r. r.value) (match_all_from h.inner.map key (length key)) arc).0 m in
          let s = match_all_from_sound h.inner key (length key) r.0 r.1 in
          let there : lookup_exact h.inner (take r.0.matched_index key) ≡ some arc = rw r.2 s.1 in
          let w = lookup_exact-IsKeyed h (take r.0.matched_index key) arc k there in
          let same : w.0 ≡ o = let p = w.1 in cc in
          let keys : take r.0.matched_index key ≡ o.relative_path_key =
            sym w.2 ∙ ap (λ o. o.relative_path_key) same in
          ((r.0.matched_index, s.0, keys), rw⁻¹ keys there)
