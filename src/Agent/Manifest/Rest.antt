-- ===== src/Agent/Manifest/Rest.antt =====
-- The events behind the manifest of `run_push` of src/agent.rs.
use apb.Prelude.{ℕ, ◌≡◌, refl, ap, List, [], ◌∷◌, ◌++◌}
use apb.Proto.Types.{Text}
use apb.Agent.Types.{Event}
use apb.Agent.Manifest.{Listing, Listed, list_event, list_on, run_list}

-- The events that the manifest leaves are the last ones.
abbrev pub Suffix : List Event → List Event → Type 0
Suffix es rest = (before : List Event) × (es ≡ before ++ rest)

list_on-Suffix :
    (f : Listing → Listed × List Event) (e : Event) (es : List Event) (x : Listed)
    → ((s : Listing) → Suffix es (f s).1)
    → Suffix (e ∷ es) (list_on f es x).1
unfolding list_on
list_on-Suffix f e es (Listed.more s) h = let (before, q) = h s in (e ∷ before, ap (λ l. e ∷ l) q)
list_on-Suffix f e es (Listed.ended n s) h = (e ∷ [], refl)
list_on-Suffix f e es (Listed.stopped s r) h = (e ∷ [], refl)

pub run_list-Suffix :
    (job : ℕ) (root : Text) (es : List Event) (s : Listing) → Suffix es (run_list job root es s).1
unfolding run_list
run_list-Suffix job root [] s = ([], refl)
run_list-Suffix job root (e ∷ es) s =
    list_on-Suffix (run_list job root es) e es (list_event job root e s)
      (run_list-Suffix job root es)
