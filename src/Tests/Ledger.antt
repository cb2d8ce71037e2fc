-- ===== src/Tests/Ledger.antt =====
-- A ledger of four jobs, two of which are each other's parent.
use agents_for_dummies.Base.{
  String, ◌≡◌, refl, true, false, Option, none, some, List, [], ◌∷◌, ◌↔◌, All, contains,
  if◌then◌else◌,
}
use agents_for_dummies.Base.Dict.{Dict, get, put}
use agents_for_dummies.Base.Text.{text_before, codes, is_less}
use agents_for_dummies.Base.Result.{ok, err}
use agents_for_dummies.Ledger.{
  LintRule, Node, Finding, Ledger, depth, same_vendor_review, frontier_without_gate, invalid_json,
}
use agents_for_dummies.Ledger.Load.{
  Entry, blank, not_json, not_object, object, Reading, attribute_error, add_entry, load_lines,
  load_jsonl,
}
use agents_for_dummies.Ledger.Export.{to_json, from_json, values}
use agents_for_dummies.Ledger.Keyed.{IsKeyed, load_jsonl-IsKeyed}
use agents_for_dummies.Ledger.RoundTrip.{from_json-to_json}
use agents_for_dummies.Ledger.Lint.{
  node_at, walk_up, compute_depth, depth_findings, reviewed, review_findings, gate_findings, lint,
}
use agents_for_dummies.Ledger.Loops.{lint-ends}
use agents_for_dummies.Ledger.Clean.{IsClean, lint-IsClean_iff}
use agents_for_dummies.Ledger.Rollup.{
  Walk, push_children, walk_down, rollup_root, root_ids, rollup_roots, rollup,
}
use agents_for_dummies.Ledger.Subtree.{Below, calls_of, seconds_of, distinct, rollup_root-Below}
use agents_for_dummies.Ledger.Record.{Dispatch, Return, dispatch_entry, return_entry}
use agents_for_dummies.Ledger.Merge.{running, ended, add_entry-twice, dispatch-return}
use agents_for_dummies.Ledger.Mermaid.{escape_label}
use agents_for_dummies.Ledger.Escapes.{IsEscaped, unescape, escape_label-IsEscaped}

abbrev job : String → Option String → Dispatch
job id parent = record {
  node_id = id;
  run_id = "r1";
  model = "sonnet";
  tier = "executive";
  task = "code";
  provider = "claude";
  parent_id = parent;
  edge_type = some "reviews";
  gate_reason = none;
}

abbrev returned : Return
returned = record { status = "returned"; seconds = 5; subscription_calls = 2 }

abbrev file : Reading
file = record {
  lines =
      object (dispatch_entry (job "a" none) "T1")
      ∷ blank
      ∷ not_json
      ∷ object (dispatch_entry (job "b" (some "a")) "T2")
      ∷ object (return_entry "b" returned "T3")
      ∷ object (dispatch_entry (job "c" (some "d")) "T4")
      ∷ object (dispatch_entry (job "d" (some "c")) "T5")
      ∷ [];
  faulty = false;
}

abbrev job_nodes : Dict Node
job_nodes =
    ("a", running (job "a" none) "T1")
    ∷ ("b", ended (job "b" (some "a")) returned "T3")
    ∷ ("c", running (job "c" (some "d")) "T4")
    ∷ ("d", running (job "d" (some "c")) "T5")
    ∷ []

abbrev loaded : Ledger
loaded = record { nodes = job_nodes; warnings = invalid_json 3 ∷ [] }

load_file : load_jsonl file ≡ ok loaded
unfolding load_jsonl load_lines add_entry dispatch_entry return_entry text_before get put is_less
load_file = refl

load_bad : load_jsonl record { lines = not_object ∷ []; faulty = false } ≡ err attribute_error
unfolding load_jsonl load_lines
load_bad = refl

abbrev found : LintRule → List String → Finding
found rule ids = record { rule = rule; node_ids = ids }

lint_file :
    lint loaded
    ≡ some (
        found depth ("c" ∷ [])
        ∷ found depth ("d" ∷ [])
        ∷ found same_vendor_review ("a" ∷ "b" ∷ [])
        ∷ found same_vendor_review ("d" ∷ "c" ∷ [])
        ∷ found same_vendor_review ("c" ∷ "d" ∷ [])
        ∷ found frontier_without_gate ("a" ∷ [])
        ∷ found frontier_without_gate ("b" ∷ [])
        ∷ found frontier_without_gate ("c" ∷ [])
        ∷ found frontier_without_gate ("d" ∷ [])
        ∷ [])
unfolding lint depth_findings compute_depth walk_up node_at reviewed review_findings gate_findings
    get
lint_file = refl

rollup_file :
    rollup loaded ≡ ("a", some record { visited = "b" ∷ "a" ∷ []; calls = 2; seconds = 5 }) ∷ []
unfolding rollup rollup_roots rollup_root walk_down push_children root_ids get put
rollup_file = refl

load_jsonl-IsKeyed_example : IsKeyed job_nodes
load_jsonl-IsKeyed_example = load_jsonl-IsKeyed file load_file

abbrev same_entries : List Entry → List Entry
same_entries entries = entries

abbrev read_entries : List Entry → Option (List Entry)
read_entries entries = some entries

from_json-to_json_example :
    from_json read_entries (to_json same_entries loaded)
    ≡ record { nodes = job_nodes; warnings = [] }
from_json-to_json_example =
    from_json-to_json same_entries read_entries (λ entries. refl) loaded load_jsonl-IsKeyed_example

lint-ends_example : (findings : List Finding) × (lint loaded ≡ some findings)
lint-ends_example = lint-ends loaded

lint-IsClean_iff_example : (lint loaded ≡ some []) ↔ All (IsClean job_nodes) (values job_nodes)
lint-IsClean_iff_example = lint-IsClean_iff loaded load_jsonl-IsKeyed_example

rollup_root-Below_example :
    (w : Walk) × (rollup_root job_nodes "a" ≡ some w)
    × ((c : String) → (contains c w.visited ≡ true) ↔ Below job_nodes "a" c)
    × (distinct w.visited ≡ true)
    × (w.calls ≡ calls_of job_nodes w.visited)
    × (w.seconds ≡ seconds_of job_nodes w.visited)
rollup_root-Below_example = rollup_root-Below job_nodes load_jsonl-IsKeyed_example "a"

add_entry-twice_example :
    add_entry
      (dispatch_entry (job "e" none) "T6")
      (add_entry (dispatch_entry (job "e" none) "T6") job_nodes)
    ≡ add_entry (dispatch_entry (job "e" none) "T6") job_nodes
add_entry-twice_example = add_entry-twice (dispatch_entry (job "e" none) "T6") job_nodes

absent_e : get "e" job_nodes ≡ none
unfolding get
absent_e = refl

dispatch-return_example :
    get "e" (
      add_entry
        (return_entry "e" returned "T7")
        (add_entry (dispatch_entry (job "e" none) "T6") job_nodes))
    ≡ some (
        if text_before "T6" "T7"
        then ended (job "e" none) returned "T7"
        else running (job "e" none) "T6")
dispatch-return_example = dispatch-return (job "e" none) returned "T6" "T7" job_nodes absent_e refl

escape_label-IsEscaped_example :
    IsEscaped (escape_label (codes "a|\"b\""))
    × (unescape (escape_label (codes "a|\"b\"")) ≡ codes "a|\"b\"")
escape_label-IsEscaped_example = escape_label-IsEscaped (codes "a|\"b\"")
