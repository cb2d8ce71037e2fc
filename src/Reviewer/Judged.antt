-- ===== src/Reviewer/Judged.antt =====
-- What an accepted review has said.
use agents_for_dummies.Base.{
  ℕ, zero, suc, ◌+◌, ◌<◌, ◌≤◌, ◌≡◌, refl, true, Option, none, some, List, [], ◌∷◌, length,
  if◌then◌else◌, arith, sym, ap, ◌∙◌, All,
}
use agents_for_dummies.Base.Int.{ℤ, pos, negsuc}
use agents_for_dummies.Base.Result.{ok}
use agents_for_dummies.Reviewer.Verdicts.{
  Verdict, accepted, claim_ids, same_int, insert_id, sorted_ids, range_from, same_ids, is_ok,
  all_ok, judge_ids, judge,
}

-- How often an id is there.
abbrev pub count : ℤ → List ℤ → ℕ
count z [] = 0
count z (x ∷ xs) = if same_int z x then suc (count z xs) else count z xs

count-insert_id :
    (z x : ℤ) (xs : List ℤ)
    → count z (insert_id x xs) ≡ (if same_int z x then suc (count z xs) else count z xs)
unfolding insert_id
count-insert_id z x [] = refl
count-insert_id z x (y ∷ ys) = ground (arith, count-insert_id z x ys)

count-sorted_ids : (z : ℤ) (xs : List ℤ) → count z (sorted_ids xs) ≡ count z xs
unfolding sorted_ids
count-sorted_ids z [] = refl
count-sorted_ids z (x ∷ xs) =
    count-insert_id z x (sorted_ids xs) ∙ ground (arith, count-sorted_ids z xs)

length-insert_id : (x : ℤ) (xs : List ℤ) → length (insert_id x xs) ≡ suc (length xs)
unfolding insert_id
length-insert_id x [] = refl
length-insert_id x (y ∷ ys) = ground (arith, length-insert_id x ys)

length-sorted_ids : (xs : List ℤ) → length (sorted_ids xs) ≡ length xs
unfolding sorted_ids
length-sorted_ids [] = refl
length-sorted_ids (x ∷ xs) = length-insert_id x (sorted_ids xs) ∙ ap suc (length-sorted_ids xs)

length-range_from : (i n : ℕ) → length (range_from i n) ≡ n
unfolding range_from
length-range_from i zero = refl
length-range_from i (suc n) = ap suc (length-range_from (suc i) n)

count-below : (k i n : ℕ) → k < i → count (pos k) (range_from i n) ≡ 0
unfolding range_from
count-below k i zero h = refl
count-below k i (suc n) h = ground (arith, count-below k (suc i) n)

count-range_from : (k i n : ℕ) → i ≤ k → k < i + n → count (pos k) (range_from i n) ≡ 1
unfolding range_from
count-range_from k i zero low high = absurd (omega arith)
count-range_from k i (suc n) low high =
    ground (arith, count-range_from k (suc i) n, count-below k (suc i) n)

same_int-equal : (a b : ℤ) → same_int a b ≡ true → a ≡ b
same_int-equal (pos a) (pos b) h = ap pos (ground (arith, h))
same_int-equal (pos a) (negsuc b) h = absurd (ground (arith, h))
same_int-equal (negsuc a) (pos b) h = absurd (ground (arith, h))
same_int-equal (negsuc a) (negsuc b) h = ap negsuc (ground (arith, h))

same_ids-equal : (xs ys : List ℤ) → same_ids xs ys ≡ true → xs ≡ ys
same_ids-equal [] [] h = refl
same_ids-equal [] (y ∷ ys) h = absurd (ground (arith, h))
same_ids-equal (x ∷ xs) [] h = absurd (ground (arith, h))
same_ids-equal (x ∷ xs) (y ∷ ys) h =
    ap (λ z. z ∷ xs) (same_int-equal x y (ground (arith, h)))
    ∙ ap (λ zs. y ∷ zs) (same_ids-equal xs ys (ground (arith, h)))

all_ok-All : (vs : List Verdict) → all_ok vs ≡ true → All (λ v. is_ok v ≡ true) vs
all_ok-All [] h = tt
all_ok-All (v ∷ vs) h = (ground (arith, h), all_ok-All vs (ground (arith, h)))

-- The verdicts are all ok and there are no omissions; there are as many verdicts as claims, and
-- exactly one for each claim.
unfoldable pub IsCovered : {A : Type 0} → ℕ → List Verdict → List A → Type 0
IsCovered n verdicts omissions =
    All (λ v. is_ok v ≡ true) verdicts
    × (omissions ≡ [])
    × ((ids : List ℤ) × (claim_ids verdicts ≡ some ids)
        × (length ids ≡ n)
        × ((k : ℕ) → k < n → count (pos k) ids ≡ 1))

module _ {A : Type 0} where
  judge_ids-accepted :
      (n : ℕ) (verdicts : List Verdict) (omissions : List A) (found : Option (List ℤ))
      → judge_ids n verdicts omissions found ≡ accepted
      → (ids : List ℤ) × (found ≡ some ids)
        × (all_ok verdicts ≡ true)
        × (omissions ≡ [])
        × (sorted_ids ids ≡ range_from 0 n)
  unfolding judge_ids
  judge_ids-accepted n verdicts omissions none h = absurd (ground arith)
  judge_ids-accepted n verdicts omissions (some ids) h =
      (ids, refl, ground arith, ground arith, same_ids-equal _ _ (ground arith))

  judge-ids :
      (n : ℕ) (verdicts : List Verdict) (omissions : List A)
      → judge n verdicts omissions ≡ ok accepted
      → judge_ids n verdicts omissions (claim_ids verdicts) ≡ accepted
  unfolding judge
  judge-ids n verdicts omissions h = ground arith

  pub judge-IsCovered :
      (n : ℕ) (verdicts : List Verdict) (omissions : List A)
      → judge n verdicts omissions ≡ ok accepted
      → IsCovered n verdicts omissions
  unfolding IsCovered
  judge-IsCovered n verdicts omissions h =
      let (ids, found, fine, complete, sorted) =
        judge_ids-accepted n verdicts omissions (claim_ids verdicts)
          (judge-ids n verdicts omissions h) in
      (
        all_ok-All verdicts fine,
        complete,
        (
          ids,
          found,
          sym (length-sorted_ids ids) ∙ ap length sorted ∙ length-range_from 0 n,
          λ k low.
              sym (count-sorted_ids (pos k) ids)
              ∙ ap (count (pos k)) sorted
              ∙ count-range_from k 0 n (omega arith) (omega (arith, low)),
        ),
      )
