-- ===== src/Schemas/PositionState/Coverage.antt =====
-- What it means that no short leg is reported: the long contracts are shared out so that each short
-- contract has one of its own.
use hermes_personal_options.Common.{
  ℕ, zero, suc, ◌+◌, ◌-◌, ◌≤◌, min, ◌≡◌, refl, sym, ◌∙◌, ap, Bool, true, false, some, List, [], ◌∷◌,
  ◌++◌, ltb, leb, ◌==◌, ==_iff, is_empty, concat, All, arith, Bool-cases, inl, inr, if◌then◌else◌,
}
use hermes_personal_options.Common.Sort.{
  enumerate_from, nth, Indexed, All-sort_by, All-map, All-select, enumerate_from-Indexed,
  sort_by-Perm,
}
use mathlib.Core.List.{Permᴰ}
use hermes_personal_options.Schemas.PositionState.{
  PositionLeg, is_protective_long_for, shorts_most_constrained_first,
  eligible_longs_least_flexible_first, at, subtract_at, allocate, unprotected_among, shorts_of,
  longs_of, capacities, unprotected_short_legs,
}

-- The long leg of an index, and how many contracts are taken of it.
abbrev pub Allocation : Type 0
Allocation = (ℕ × PositionLeg) × ℕ

abbrev pub total : List Allocation → ℕ
total [] = 0
total (a ∷ plan) = a.1 + total plan

-- What a plan takes of one long leg.
abbrev pub used : ℕ → List Allocation → ℕ
used idx [] = 0
used idx (a ∷ plan) = let rest = used idx plan in if a.0.0 == idx then a.1 + rest else rest

-- The allocation is of one of the longs, and that one protects the short.
abbrev pub Protects : List PositionLeg → PositionLeg → ℕ × PositionLeg → Type 0
Protects longs s e = (is_protective_long_for s e.1 ≡ true) × (nth longs e.0 ≡ some e.1)

-- Every short has a plan of its own, of all its contracts.
abbrev pub Covers : List PositionLeg → List PositionLeg → List (List Allocation) → Type 0
Covers longs [] [] = Unit
Covers longs [] (p ∷ ps) = ⊥
Covers longs (s ∷ shorts) [] = ⊥
Covers longs (s ∷ shorts) (p ∷ ps) =
    (total p ≡ s.contracts)
    × All (λ (a : Allocation). Protects longs s a.0) p
    × Covers longs shorts ps

used-append : (idx : ℕ) (p q : List Allocation) → used idx (p ++ q) ≡ used idx p + used idx q
used-append idx [] q = omega arith
used-append idx (a ∷ p) q = ground (arith, used-append idx p q)

at-subtract_at :
    (rs : List ℕ) (i j take : ℕ)
    → at (subtract_at rs i take) j ≡ (if i == j then at rs j - take else at rs j)
at-subtract_at [] i j take = ground arith
at-subtract_at (r ∷ rs) zero zero take = refl
at-subtract_at (r ∷ rs) zero (suc j) take = ground arith
at-subtract_at (r ∷ rs) (suc i) zero take = ground arith
at-subtract_at (r ∷ rs) (suc i) (suc j) take = ground (arith, at-subtract_at rs i j take)

take_sum : (x rest n r : ℕ) → x + rest ≡ n - min n r → x + (min n r + rest) ≡ n
take_sum x rest n r h = ground arith

share_sum :
    (x rest n i j : ℕ) (rs : List ℕ)
    → x + rest ≡ at (subtract_at rs i (min n (at rs i))) j
    → x + (if i == j then min n (at rs i) + rest else rest) ≡ at rs j
share_sum x rest n i j rs h =
    let there = at-subtract_at rs i j (min n (at rs i)) in
    elim (Bool-cases (i == j)) [
      | inl same ↦
          let same_place : at rs i ≡ at rs j = ap (at rs) ((==_iff i j).0 same) in ground arith
      | inr other ↦ ground arith
    ]

-- What the inner loop does.
abbrev Allocated : (ℕ × PositionLeg → Type 0) → ℕ → List ℕ → ℕ × List ℕ → List Allocation → Type 0
Allocated P needed remaining after plan =
    (after.0 + total plan ≡ needed)
    × ((idx : ℕ) → at after.1 idx + used idx plan ≡ at remaining idx)
    × All (λ (a : Allocation). P a.0) plan

allocate-plan :
    (P : ℕ × PositionLeg → Type 0) (eligible : List (ℕ × PositionLeg)) (needed : ℕ)
    (remaining : List ℕ)
    → All P eligible
    → (plan : List Allocation) × Allocated P needed remaining
        (allocate eligible needed remaining)
        plan
unfolding allocate
allocate-plan P [] needed remaining all_fit = ([], (omega arith, λ idx. omega arith, tt))
allocate-plan P (e ∷ eligible) needed remaining all_fit = elim (Bool-cases (leb needed 0)) [
  | inl done ↦ ([], (rw done (omega arith), λ idx. rw done (omega arith), tt))
  | inr more ↦
      let take = min needed (at remaining e.0) in
      let (plan, (sum, shares, fit)) =
        allocate-plan P eligible (needed - take) (subtract_at remaining e.0 take) all_fit.1 in
      (
        (e, take) ∷ plan,
        (
          rw more (take_sum _ (total plan) needed (at remaining e.0) sum),
          λ idx. rw more (share_sum _ (used idx plan) needed e.0 idx remaining (shares idx)),
          (all_fit.0, fit),
        ),
      )
]

minus_zero : (n : ℕ) → n - 0 ≡ n
minus_zero n = omega arith

eligible-Protects :
    (s : PositionLeg) (longs : List PositionLeg)
    → All (Protects longs s) (eligible_longs_least_flexible_first s longs)
unfolding eligible_longs_least_flexible_first
eligible-Protects s longs = All-sort_by (Protects longs s) _ _ (
    All-map _ (Protects longs s) _
      (λ (e : ℕ × PositionLeg) h. (h.0, ap (nth longs) (sym (minus_zero e.0)) ∙ h.1.1))
      (All-select (Indexed longs 0) (λ (e : ℕ × PositionLeg). is_protective_long_for s e.1)
        (enumerate_from 0 longs) (enumerate_from-Indexed 0 longs)))

nothing_added :
    (test : Bool) (s : PositionLeg) (rest : List PositionLeg)
    → is_empty (if test then s ∷ rest else rest) ≡ true
    → (test ≡ false) × (is_empty rest ≡ true)
nothing_added true s rest h = absurd cc
nothing_added false s rest h = (refl, h)

covered_sum :
    (left sum contracts : ℕ) → ltb 0 left ≡ false → left + sum ≡ contracts → sum ≡ contracts
covered_sum left sum contracts h e = ground arith

share_within :
    (both mine others left before : ℕ)
    → both ≡ mine + others
    → others ≤ left
    → left + mine ≡ before
    → both ≤ before
share_within both mine others left before h within share = omega arith

-- The outer loop, when no short is left over.
unprotected-plan :
    (longs shorts : List PositionLeg) (remaining : List ℕ)
    → is_empty (unprotected_among longs shorts remaining) ≡ true
    → (plans : List (List Allocation)) × Covers longs shorts plans
      × ((idx : ℕ) → used idx (concat plans) ≤ at remaining idx)
unfolding unprotected_among
unprotected-plan longs [] remaining h = ([], tt, λ idx. omega arith)
unprotected-plan longs (s ∷ shorts) remaining h =
    let eligible = eligible_longs_least_flexible_first s longs in
    let left = allocate eligible s.contracts remaining in
    let (plan, (sum, shares, fit)) =
      allocate-plan (Protects longs s) eligible s.contracts remaining (eligible-Protects s longs) in
    let (covered, none_left) =
      nothing_added (ltb 0 left.0) s (unprotected_among longs shorts left.1) h in
    let (plans, rest, within) = unprotected-plan longs shorts left.1 none_left in
    (
      plan ∷ plans,
      (covered_sum left.0 (total plan) s.contracts covered sum, fit, rest),
      λ idx.
          share_within _ (used idx plan) (used idx (concat plans)) (at left.1 idx) _
            (used-append idx plan (concat plans)) (within idx) (shares idx),
    )

shorts-Perm : (shorts : List PositionLeg) → Permᴰ (shorts_most_constrained_first shorts) shorts
unfolding shorts_most_constrained_first
shorts-Perm shorts = sort_by-Perm _ shorts

-- Each short leg, in some order, has an allocation of all its contracts from long legs that protect
-- it, and no long leg gives more contracts than it has.
abbrev pub Covered : List PositionLeg → Type 0
Covered legs =
    (shorts : List PositionLeg) × (plans : List (List Allocation)) × Permᴰ shorts (shorts_of legs)
    × Covers (longs_of legs) shorts plans
    × ((idx : ℕ) → used idx (concat plans) ≤ at (capacities (longs_of legs)) idx)

-- Where no short leg is reported, all are covered: each short leg, in some order, has an allocation
-- of all its contracts from long legs that protect it (the same underlying, date and type, and a
-- strike on the protecting side), and no long leg gives more contracts than it has.
pub unprotected_short_legs-Covered :
    (legs : List PositionLeg) → is_empty (unprotected_short_legs legs) ≡ true → Covered legs
unfolding unprotected_short_legs
unprotected_short_legs-Covered legs h =
    let shorts = shorts_most_constrained_first (shorts_of legs) in
    let (plans, covers, within) =
      unprotected-plan (longs_of legs) shorts (capacities (longs_of legs)) h in
    (shorts, plans, shorts-Perm (shorts_of legs), covers, within)
