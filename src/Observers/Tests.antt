-- ===== src/Observers/Tests.antt =====
-- Two resources of observers.rs that are observed at "a" and "a/b", and the theorems applied there.
use coap_server_rs.Base.{
  ℕ, ◌≡◌, ◌≢◌, refl, none, some, List, [], ◌∷◌, Text, codes, Member, get, nat_eq, list_eq,
  if◌then◌else◌, ◌==◌, returned, panicked,
}
use coap_server_rs.U24.{U24}
use coap_server_rs.PathMatcher.{lookup_exact, key_from_path}
use coap_server_rs.Observers.{
  Observers, ObserversHolder, Attached, notify_change, notify_change_for_path, attach, detach,
  new_holder, resource_changed,
}
use coap_server_rs.Observers.Notify.{IsHolder, IsPrefix, notify_change_for_path_lem}
use coap_server_rs.Observers.Detach.{
  detach_attached, Reachable, attached, created, notified_for, Reachable-IsHolder,
  attach_twice_panics, without,
}

abbrev number : ℕ → U24
number n = record { value = n }

abbrev of_a : Observers ℕ
of_a = record { relative_path_key = codes "a" ∷ []; notify_change_tx = 100; change_num = number 7 }

abbrev of_ab : Observers ℕ
of_ab = record {
  relative_path_key = codes "a" ∷ codes "b" ∷ [];
  notify_change_tx = 101;
  change_num = number 0xffffff;
}

abbrev both : ObserversHolder ℕ
both = (attach (attach new_holder of_a).0 of_ab).0

both-Reachable : Reachable both
both-Reachable = attached _ of_ab (attached _ of_a created)

both-IsHolder : IsHolder both
both-IsHolder = Reachable-IsHolder both both-Reachable

test_notify_change_for_path :
    (notify_change_for_path both (codes "a/b/c")).1
    ≡ (101, resource_changed (number 0)) ∷ (100, resource_changed (number 8)) ∷ []
unfolding notify_change_for_path attach new_holder
test_notify_change_for_path = refl

-- The observer of "a/b" is not told of a change of "a".
test_shorter_path :
    (notify_change_for_path both (codes "a")).1 ≡ (100, resource_changed (number 8)) ∷ []
unfolding notify_change_for_path attach new_holder
test_shorter_path = refl

held_ab : get 1 both.arcs ≡ some of_ab
unfolding attach new_holder get
held_ab = refl

there_ab : lookup_exact both.inner (codes "a" ∷ codes "b" ∷ []) ≡ some 1
unfolding attach new_holder lookup_exact
there_ab = refl

notify_change_for_path_lem_example :
    let after = notify_change_for_path both (codes "a/b/c") in
    (lookup_exact both.inner of_ab.relative_path_key ≡ some 1
      → IsPrefix of_ab.relative_path_key (key_from_path (codes "a/b/c"))
      → (get 1 after.0.arcs ≡ some (notify_change of_ab).0)
        × Member (101, (notify_change of_ab).1) after.1)
    × ((IsPrefix of_ab.relative_path_key (key_from_path (codes "a/b/c")) → ⊥)
        → get 1 after.0.arcs ≡ some of_ab)
    × ((lookup_exact both.inner of_ab.relative_path_key ≢ some 1) → get 1 after.0.arcs ≡ some of_ab)
notify_change_for_path_lem_example =
    notify_change_for_path_lem both (codes "a/b/c") 1 of_ab both-IsHolder held_ab

abbrev handle_ab : Attached
handle_ab = record { key = codes "a" ∷ codes "b" ∷ []; value = 1 }

detach_attached_example :
    (detach both handle_ab ≡ returned (without both handle_ab, of_ab))
    × ((key : List Text)
        → lookup_exact (without both handle_ab).inner key
          ≡ (if handle_ab.key == key then none else lookup_exact both.inner key))
    × ((arc : ℕ)
        → get arc (without both handle_ab).arcs ≡ (if 1 == arc then none else get arc both.arcs))
detach_attached_example = detach_attached both handle_ab of_ab both-IsHolder there_ab held_ab

Reachable-IsHolder_example : IsHolder (notify_change_for_path both (codes "a/b")).0
Reachable-IsHolder_example =
    Reachable-IsHolder (notify_change_for_path both (codes "a/b")).0
      (notified_for both (codes "a/b") both-Reachable)

attach_twice_panics_example :
    let first = attach both of_a in
    let second = attach first.0 (record of_a { notify_change_tx = 102 }) in
    ((path : Text) → get first.1.value (notify_change_for_path second.0 path).0.arcs ≡ some of_a)
    × ((r : ObserversHolder ℕ) × (detach second.0 second.1
          ≡ returned (r, record of_a { notify_change_tx = 102 }))
        × (detach r first.1 ≡ panicked))
attach_twice_panics_example =
    attach_twice_panics both of_a (record of_a { notify_change_tx = 102 }) both-IsHolder refl
