-- ===== src/ObserveHandler/Counts.antt =====
-- How often a path is in a list, for the lifecycles of observe_handler.rs that run.
use coap_server_rs.Base.{
  text_eq, ℕ, ◌+◌, ◌≤◌, ◌≡◌, List, [], ◌∷◌, Text, if◌then◌else◌, ◌==◌, nat_eq, list_eq, arith,
}

-- How often a path is in the list.
abbrev pub count : Text → List Text → ℕ
count path [] = 0
count path (p ∷ paths) = (if p == path then 1 else 0) + count path paths

abbrev pub remove_first : Text → List Text → List Text
remove_first path [] = []
remove_first path (p ∷ paths) =
    let rest = remove_first path paths in if p == path then paths else p ∷ rest

pub count-remove_first :
    (path p : Text) (paths : List Text)
    → 1 ≤ count path paths
    → count p (remove_first path paths) + (if path == p then 1 else 0) ≡ count p paths
count-remove_first path p [] h = absurd (omega arith)
count-remove_first path p (q ∷ paths) h = ground (
  arith,
  text_eq.eq_iff q path,
  text_eq.eq_iff q p,
  text_eq.eq_iff path p,
  count-remove_first path p paths,
)
