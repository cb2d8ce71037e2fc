-- ===== src/Ledger/RoundTrip.antt =====
-- What is written as JSON is read back.
use agents_for_dummies.Base.{
  All, String, ◌≡◌, refl, false, Option, some, List, [], ◌∷◌, ◌++◌, ◌||◌, arith, contains, eq_iff,
  ap, sym, ◌∙◌, map, subst,
}
use agents_for_dummies.Base.Dict.{Dict, put}
use agents_for_dummies.Ledger.{Node, Ledger}
use agents_for_dummies.Ledger.Load.{Entry}
use agents_for_dummies.Ledger.Export.{
  entry_of, values, read_nodes, to_json, from_json, read_document,
}
use agents_for_dummies.Ledger.Keyed.{keys, IsKeyed}

append-nil : (d : Dict Node) → d ++ [] ≡ d
append-nil [] = refl
append-nil (x ∷ d) = ap (λ rest. x ∷ rest) (append-nil d)

-- A new key is put at the end.
put-absent :
    (k : String) (v : Node) (d : Dict Node)
    → contains k (keys d) ≡ false
    → put k v d ≡ d ++ ((k, v) ∷ [])
unfolding put
put-absent k v [] h = refl
put-absent k v ((i, w) ∷ d) h = ground (arith, eq_iff i k, eq_iff k i, put-absent k v d)

append-step : (x : String × Node) (d rest : Dict Node) → (d ++ (x ∷ [])) ++ rest ≡ d ++ (x ∷ rest)
append-step x [] rest = refl
append-step x (y ∷ d) rest = ap (λ zs. y ∷ zs) (append-step x d rest)

contains-keys-append :
    (j : String) (d e : Dict Node)
    → contains j (keys (d ++ e)) ≡ (contains j (keys d) || contains j (keys e))
contains-keys-append j [] e = refl
contains-keys-append j (x ∷ d) e = ground (arith, contains-keys-append j d e)

-- No key of one dictionary is a key of the other.
abbrev Apart : Dict Node → Dict Node → Type 0
Apart d e = All (λ k. contains k (keys d) ≡ false) (keys e)

Apart-step :
    (k : String) (n : Node) (d e : Dict Node)
    → contains k (keys e) ≡ false
    → Apart d e
    → Apart (d ++ ((k, n) ∷ [])) e
Apart-step k n d [] h a = tt
Apart-step k n d ((j, m) ∷ e) h a = (
  ground (arith, eq_iff j k, eq_iff k j, contains-keys-append j d ((k, n) ∷ [])),
  Apart-step k n d e (ground arith) a.1,
)

read_nodes-append :
    (d e : Dict Node) → IsKeyed e → Apart d e → read_nodes (map entry_of (values e)) d ≡ d ++ e
unfolding read_nodes IsKeyed
read_nodes-append d [] h a = sym (append-nil d)
read_nodes-append d ((k, n) ∷ e) h a =
    subst (λ id. read_nodes (map entry_of (values e)) (put id n d) ≡ d ++ ((k, n) ∷ e)) (sym h.0)
      (ap (read_nodes (map entry_of (values e))) (put-absent k n d a.0)
        ∙ read_nodes-append (d ++ ((k, n) ∷ [])) e h.2 (Apart-step k n d e h.1 a.1)
        ∙ append-step (k, n) d e)

Apart-nil : (e : Dict Node) → Apart [] e
Apart-nil [] = tt
Apart-nil ((k, n) ∷ e) = (refl, Apart-nil e)

module _ {Text : Type 0} (dumps : List Entry → Text) (loads : Text → Option (List Entry))
    (loads-dumps : (entries : List Entry) → loads (dumps entries) ≡ some entries) where
  -- Where reading JSON inverts writing it, a ledger whose nodes stand each under its own id, and no
  -- id twice, is read back with the same nodes in the same order, and without warnings.
  pub from_json-to_json :
      (ledger : Ledger)
      → IsKeyed ledger.nodes
      → from_json loads (to_json dumps ledger) ≡ record { nodes = ledger.nodes; warnings = [] }
  unfolding from_json to_json
  from_json-to_json ledger h =
      ap read_document (loads-dumps (map entry_of (values ledger.nodes)))
      ∙ ap (λ nodes. record { nodes = nodes; warnings = [] })
          (read_nodes-append [] ledger.nodes h (Apart-nil ledger.nodes))
