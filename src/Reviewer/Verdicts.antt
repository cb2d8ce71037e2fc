-- ===== src/Reviewer/Verdicts.antt =====
-- reviewer.py: the judgement of the verdicts that a reviewer returns (the end of `review`).
use agents_for_dummies.Base.{
  ℕ, zero, suc, Bool, true, false, not, ◌&&◌, ◌||◌, Option, none, some, List, [], ◌∷◌,
  if◌then◌else◌, eqb, leb,
}
use agents_for_dummies.Base.Int.{ℤ, pos, negsuc}
use agents_for_dummies.Base.Result.{Result, ok, err}

-- An entry of `verdicts`: not a dict, or a dict. The field `ok` is `none` where it is no bool, and
-- `claim` where it is no int; True and False are the ints 1 and 0.
pub data Verdict : Type 0 where
  no_dict : Verdict
  dict : Option Bool → Option ℤ → Verdict

-- The exceptions that leave `review`.
pub data ReviewError : Type 0 where
  value_error type_error attribute_error : ReviewError

pub data Judgement : Type 0 where
  accepted issues invalid : Judgement

-- Whether the values of `ok` are bools: the first loop. It stops at the first that is none.
unfoldable pub all_bools : List Verdict → Result ReviewError Bool
all_bools [] = ok true
all_bools (no_dict ∷ rest) = err attribute_error
all_bools (dict none claim ∷ rest) = ok false
all_bools (dict (some b) claim ∷ rest) = all_bools rest

abbrev pub add_id : Option ℤ → Option (List ℤ) → Option (List ℤ)
add_id none ids = none
add_id (some id) none = none
add_id (some id) (some ids) = some (id ∷ ids)

-- The second loop: the ids, if all are ints.
unfoldable pub claim_ids : List Verdict → Option (List ℤ)
claim_ids [] = some []
claim_ids (no_dict ∷ rest) = none
claim_ids (dict b claim ∷ rest) = add_id claim (claim_ids rest)

abbrev pub same_int : ℤ → ℤ → Bool
same_int (pos a) (pos b) = eqb a b
same_int (negsuc a) (negsuc b) = eqb a b
same_int _ _ = false

abbrev pub leb_int : ℤ → ℤ → Bool
leb_int (pos a) (pos b) = leb a b
leb_int (pos a) (negsuc b) = false
leb_int (negsuc a) (pos b) = true
leb_int (negsuc a) (negsuc b) = leb b a

abbrev pub has_id : ℤ → List ℤ → Bool
has_id z [] = false
has_id z (x ∷ xs) = same_int z x || has_id z xs

-- len(claim_ids) == len(set(claim_ids))
abbrev pub all_unique : List ℤ → Bool
all_unique [] = true
all_unique (x ∷ xs) = not (has_id x xs) && all_unique xs

unfoldable pub insert_id : ℤ → List ℤ → List ℤ
insert_id z [] = z ∷ []
insert_id z (x ∷ xs) = let later = insert_id z xs in if leb_int z x then z ∷ x ∷ xs else x ∷ later

-- sorted(claim_ids)
unfoldable pub sorted_ids : List ℤ → List ℤ
sorted_ids [] = []
sorted_ids (x ∷ xs) = insert_id x (sorted_ids xs)

-- list(range(i, i + n))
unfoldable pub range_from : ℕ → ℕ → List ℤ
range_from i zero = []
range_from i (suc n) = pos i ∷ range_from (suc i) n

abbrev pub same_ids : List ℤ → List ℤ → Bool
same_ids [] [] = true
same_ids (x ∷ xs) (y ∷ ys) = same_int x y && same_ids xs ys
same_ids _ _ = false

abbrev pub is_ok : Verdict → Bool
is_ok no_dict = false
is_ok (dict none claim) = false
is_ok (dict (some b) claim) = b

abbrev pub all_ok : List Verdict → Bool
all_ok [] = true
all_ok (v ∷ vs) = is_ok v && all_ok vs

abbrev pub no_elements {ℓ} : {A : Type ℓ} → List A → Bool
no_elements [] = true
no_elements (x ∷ xs) = false

-- The checks of the ids, and the outcome.
unfoldable pub judge_ids : {A : Type 0} → ℕ → List Verdict → List A → Option (List ℤ) → Judgement
judge_ids n verdicts omissions none = invalid
judge_ids n verdicts omissions (some ids) =
    if all_unique ids && same_ids (sorted_ids ids) (range_from 0 n)
    then if all_ok verdicts && no_elements omissions then accepted else issues
    else invalid

-- From the first loop on, for the number of claims.
unfoldable pub judge : {A : Type 0} → ℕ → List Verdict → List A → Result ReviewError Judgement
judge n verdicts omissions = elim (all_bools verdicts) [
  | err e ↦ err e
  | ok false ↦ ok invalid
  | ok true ↦ ok (judge_ids n verdicts omissions (claim_ids verdicts))
]
