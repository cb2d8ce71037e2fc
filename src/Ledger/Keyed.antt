-- ===== src/Ledger/Keyed.antt =====
-- What is read is keyed: each node stands once, under its own id.
use agents_for_dummies.Base.{
  ◌||◌, ℕ, suc, String, ◌≡◌, refl, Bool, true, false, Option, none, some, List, [], ◌∷◌,
  if◌then◌else◌, arith, ◌==◌, eq_iff, contains, String-cases, Bool-cases, inl, inr, eq_refl, subst,
}
use agents_for_dummies.Base.Dict.{Dict, put}
use agents_for_dummies.Base.Result.{ok, ok_injective, >>=-eq-ok}
use agents_for_dummies.Ledger.{Node, Ledger, unreadable_file}
use agents_for_dummies.Ledger.Load.{
  place, Entry, Line, blank, not_json, not_object, object, node_of, merge, is_later, add_entry,
  load_lines, with_warning, with_entry, Reading, load_jsonl, empty_ledger,
}

abbrev pub keys {ℓ} : {V : Type ℓ} → Dict V → List String
keys [] = []
keys ((k, v) ∷ d) = k ∷ keys d

-- Every node is under its own id, and no id is there twice.
unfoldable pub IsKeyed : Dict Node → Type 0
IsKeyed [] = Unit
IsKeyed ((k, n) ∷ d) = (n.id ≡ k) × (contains k (keys d) ≡ false) × IsKeyed d

contains-put :
    (j k : String) (v : Node) (d : Dict Node)
    → contains j (keys (put k v d)) ≡ ((j == k) || contains j (keys d))
unfolding put
contains-put j k v [] = ground (arith)
contains-put j k v ((i, w) ∷ d) = ground (arith, eq_iff i k, contains-put j k v d)

put-IsKeyed : (v : Node) (d : Dict Node) → IsKeyed d → IsKeyed (put v.id v d)
unfolding put IsKeyed
put-IsKeyed v [] h = (refl, refl, tt)
put-IsKeyed v ((i, w) ∷ d) h = elim (String-cases i v.id) [
  | inl e ↦ rw e (rw (eq_refl v.id) (refl, subst (λ k. contains k (keys d) ≡ false) e h.1, h.2))
  | inr e ↦ rw e (h.0, ground (arith, contains-put i v.id v d), put-IsKeyed v d h.2)
]

place-IsKeyed :
    (entry : Entry) (nodes : Dict Node) (found : Option Node)
    → IsKeyed nodes
    → IsKeyed (place entry nodes found)
place-IsKeyed entry nodes none h = put-IsKeyed (node_of entry) nodes h
place-IsKeyed entry nodes (some existing) h = elim (Bool-cases (is_later entry existing)) [
  | inl later ↦ rw later (put-IsKeyed (merge entry existing) nodes h)
  | inr earlier ↦ rw earlier h
]

load_lines-IsKeyed :
    (n : ℕ) (lines : List Line) (start : Ledger) {ledger : Ledger}
    → IsKeyed start.nodes
    → load_lines n lines start ≡ ok ledger
    → IsKeyed ledger.nodes
unfolding load_lines add_entry
load_lines-IsKeyed n [] start k h = subst (λ l. IsKeyed l.nodes) (ok_injective h) k
load_lines-IsKeyed n (blank ∷ lines) start k h = load_lines-IsKeyed (suc n) lines start k h
load_lines-IsKeyed n (not_json ∷ lines) start k h = load_lines-IsKeyed (suc n) lines _ k h
load_lines-IsKeyed n (not_object ∷ lines) start k h = absurd (ground arith)
load_lines-IsKeyed n (object entry ∷ lines) start k h =
    load_lines-IsKeyed (suc n) lines (with_entry entry start) (place-IsKeyed entry start.nodes _ k)
      h

with_fault :
    (faulty : Bool) (ledger : Ledger)
    → IsKeyed ledger.nodes
    → IsKeyed (if faulty then with_warning unreadable_file ledger else ledger).nodes
with_fault true ledger k = k
with_fault false ledger k = k

-- The nodes that are read from a file stand each under its own id, and no id twice.
pub load_jsonl-IsKeyed :
    (reading : Reading) {ledger : Ledger} → load_jsonl reading ≡ ok ledger → IsKeyed ledger.nodes
unfolding load_jsonl IsKeyed
load_jsonl-IsKeyed reading h =
    let (start, read, same) = >>=-eq-ok (load_lines 1 reading.lines empty_ledger) _ h in
    subst (λ l. IsKeyed l.nodes) (ok_injective same)
      (with_fault reading.faulty start (load_lines-IsKeyed 1 reading.lines empty_ledger tt read))
