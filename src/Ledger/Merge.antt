-- ===== src/Ledger/Merge.antt =====
-- How the lines of one node are merged.
use text.Mathlib.TextPositions.{compare_refl}
use agents_for_dummies.Base.{
  String, ◌≡◌, refl, true, false, Option, none, some, if◌then◌else◌, ap, ◌∙◌, Bool-cases, inl, inr,
  eq_refl,
}
use agents_for_dummies.Base.Dict.{Dict, get, put, get-put}
use agents_for_dummies.Base.Text.{text_before, is_less}
use agents_for_dummies.Ledger.{Node, truthy}
use agents_for_dummies.Ledger.Load.{
  Entry, entry_id, node_of, merge, is_later, place, add_entry, or_empty, get_or,
}
use agents_for_dummies.Ledger.Record.{Dispatch, Return, dispatch_entry, return_entry}

text_before-same : (s : String) → text_before s s ≡ false
unfolding text_before is_less
text_before-same s = ap is_less (compare_refl s)

get-put-same : (k : String) (v : Node) (d : Dict Node) → get k (put k v d) ≡ some v
get-put-same k v d = get-put k k v d ∙ rw (eq_refl k) refl

-- An entry that has been merged is not later than itself.
place_again :
    (entry : Entry) (nodes : Dict Node) (v : Node)
    → v.timestamp ≡ get_or entry.timestamp ""
    → add_entry entry (put (entry_id entry) v nodes) ≡ put (entry_id entry) v nodes
unfolding add_entry
place_again entry nodes v same =
    ap (place entry (put (entry_id entry) v nodes)) (get-put-same (entry_id entry) v nodes)
    ∙ rw
        (ap (λ t. text_before (or_empty t) (or_empty (get_or entry.timestamp ""))) same
          ∙ text_before-same (or_empty (get_or entry.timestamp "")))
        refl

unplaced :
    (entry : Entry) (nodes : Dict Node) (existing : Node)
    → get (entry_id entry) nodes ≡ some existing
    → is_later entry existing ≡ false
    → add_entry entry nodes ≡ nodes
unfolding add_entry
unplaced entry nodes existing at earlier = ap (place entry nodes) at ∙ rw earlier refl

place_twice :
    (entry : Entry) (nodes : Dict Node) (found : Option Node)
    → get (entry_id entry) nodes ≡ found
    → add_entry entry (place entry nodes found) ≡ place entry nodes found
place_twice entry nodes none at = place_again entry nodes (node_of entry) refl
place_twice entry nodes (some existing) at = elim (Bool-cases (is_later entry existing)) [
  | inl later ↦ rw later (place_again entry nodes (merge entry existing) refl)
  | inr earlier ↦ rw earlier (unplaced entry nodes existing at earlier)
]

-- An entry that is read twice in a row counts once.
pub add_entry-twice :
    (entry : Entry) (nodes : Dict Node)
    → add_entry entry (add_entry entry nodes) ≡ add_entry entry nodes
unfolding add_entry
add_entry-twice entry nodes = place_twice entry nodes _ refl

-- The nodes of a job that is running, and of one that has ended.
abbrev pub running : Dispatch → String → Node
running d now = record {
  id = d.node_id;
  run_id = some d.run_id;
  model = some d.model;
  tier = some d.tier;
  task = some d.task;
  provider = some d.provider;
  parent_id = d.parent_id;
  edge_type = d.edge_type;
  status = some "dispatched";
  seconds = none;
  subscription_calls = none;
  gate_reason = d.gate_reason;
  timestamp = some now;
}

abbrev pub ended : Dispatch → Return → String → Node
ended d r later = record (running d later) {
  status = some r.status;
  seconds = some r.seconds;
  subscription_calls = some r.subscription_calls;
}

-- Where a node is new and the status of its return is not empty, the lines of its dispatch and of
-- its return are read as one node: one with all that the dispatch said and what the return says, if
-- the return's time comes after the dispatch's; and the dispatched node as it was, if not.
pub dispatch-return :
    (d : Dispatch) (r : Return) (now later : String) (nodes : Dict Node)
    → get d.node_id nodes ≡ none
    → truthy (some r.status) ≡ true
    → get d.node_id
        (add_entry (return_entry d.node_id r later) (add_entry (dispatch_entry d now) nodes))
      ≡ some (if text_before now later then ended d r later else running d now)
unfolding add_entry dispatch_entry return_entry
dispatch-return d r now later nodes new status =
    let first = ap (place (dispatch_entry d now) nodes) new in
    let entry = return_entry d.node_id r later in
    let held = put d.node_id (running d now) nodes in
    ap (λ m. get d.node_id (add_entry entry m)) first
    ∙ ap (λ o. get d.node_id (place entry held o)) (get-put-same d.node_id (running d now) nodes)
    ∙ elim (Bool-cases (text_before now later)) [
      | inl e ↦ rw (e, status) (get-put-same d.node_id (ended d r later) held)
      | inr e ↦ rw e (get-put-same d.node_id (running d now) nodes)
    ]
