-- ===== src/Common/Sort.antt =====
-- Stable sorts, selections and enumerations of lists.
use Prim.Native.Nat.{ℕ, zero, suc, ◌-◌, ◌≤◌}
use mathlib.Core.Path.{◌≡◌, refl, ap, ◌∙◌}
use mathlib.Core.Bool.{Bool, true, false}
use mathlib.Core.Option.{Option, none, some}
use mathlib.Core.List.{List, [], ◌∷◌}
use mathlib.Core.Logic.{inl, inr}
use mathlib.Core.List.{Permᴰ}
use mathlib.Core.List.Permᴰ as PermD
use native.Mathlib.Omega.{arith}
use hermes_personal_options.Common.Tests.{if◌then◌else◌, Bool-cases}
use hermes_personal_options.Common.Lists.{All}

-- `sorted(xs, key=..., ...)`: an element goes behind those that need not follow it.
abbrev pub insert_by : {A : Type 0} → (A → A → Bool) → A → List A → List A
insert_by precedes x [] = x ∷ []
insert_by precedes x (y ∷ ys) =
    let later = insert_by precedes x ys in if precedes y x then y ∷ later else x ∷ y ∷ ys

-- A stable sort, from the last element to the first.
abbrev pub sort_by : {A : Type 0} → (A → A → Bool) → List A → List A
sort_by precedes [] = []
sort_by precedes (x ∷ xs) = insert_by precedes x (sort_by precedes xs)

abbrev pub select : {A : Type 0} → (A → Bool) → List A → List A
select p [] = []
select p (x ∷ xs) = let rest = select p xs in if p x then x ∷ rest else rest

-- `enumerate(longs)`
abbrev pub enumerate_from : {A : Type 0} → ℕ → List A → List (ℕ × A)
enumerate_from k [] = []
enumerate_from k (x ∷ xs) = (k, x) ∷ enumerate_from (suc k) xs

abbrev pub nth {ℓ} : {A : Type ℓ} → List A → ℕ → Option A
nth [] idx = none
nth (x ∷ xs) zero = some x
nth (x ∷ xs) (suc idx) = nth xs idx

-- The list without the first element that the test finds equal to x.
abbrev pub with_first : {A : Type 0} → A → Option (List A) → Option (List A)
with_first y none = none
with_first y (some ys) = some (y ∷ ys)

abbrev pub remove_one : {A : Type 0} → (A → A → Bool) → A → List A → Option (List A)
remove_one same x [] = none
remove_one same x (y ∷ ys) =
    let later = with_first y (remove_one same x ys) in if same x y then some ys else later

-- `sorted(xs) == sorted(ys)`, for a total order: the elements are the same, with their counts.
abbrev pub same_elements : {A : Type 0} → (A → A → Bool) → List A → List A → Bool
same_elements same [] [] = true
same_elements same [] (y ∷ ys) = false
same_elements same (x ∷ xs) ys = elim (remove_one same x ys) [
  | none ↦ false
  | some rest ↦ same_elements same xs rest
]

-- A sort is a permutation.
insert_by-Perm :
    {A : Type 0} (precedes : A → A → Bool) (x : A) (ys : List A)
    → Permᴰ (insert_by precedes x ys) (x ∷ ys)
insert_by-Perm precedes x [] = PermD.refl (x ∷ [])
insert_by-Perm precedes x (y ∷ ys) = elim (Bool-cases (precedes y x)) [
  | inl before ↦
      rw before
        (Permᴰ.trans (Permᴰ.cons refl (insert_by-Perm precedes x ys)) (Permᴰ.swap refl refl))
  | inr after ↦ rw after (PermD.refl (x ∷ y ∷ ys))
]

pub sort_by-Perm :
    {A : Type 0} (precedes : A → A → Bool) (xs : List A) → Permᴰ (sort_by precedes xs) xs
sort_by-Perm precedes [] = Permᴰ.nil
sort_by-Perm precedes (x ∷ xs) =
    Permᴰ.trans (insert_by-Perm precedes x (sort_by precedes xs))
      (Permᴰ.cons refl (sort_by-Perm precedes xs))

-- Predicates that hold of every element, through the sort and the selections.
pub All-insert_by :
    {A : Type 0} (P : A → Type 0) (precedes : A → A → Bool) (x : A) (ys : List A)
    → P x
    → All P ys
    → All P (insert_by precedes x ys)
All-insert_by P precedes x [] hx hy = (hx, tt)
All-insert_by P precedes x (y ∷ ys) hx hy = elim (Bool-cases (precedes y x)) [
  | inl before ↦ rw before (hy.0, All-insert_by P precedes x ys hx hy.1)
  | inr after ↦ rw after (hx, hy)
]

pub All-sort_by :
    {A : Type 0} (P : A → Type 0) (precedes : A → A → Bool) (xs : List A)
    → All P xs
    → All P (sort_by precedes xs)
All-sort_by P precedes [] h = tt
All-sort_by P precedes (x ∷ xs) h =
    All-insert_by P precedes x (sort_by precedes xs) h.0 (All-sort_by P precedes xs h.1)

pub All-select :
    {A : Type 0} (P : A → Type 0) (p : A → Bool) (xs : List A)
    → All P xs
    → All (λ x. (p x ≡ true) × P x) (select p xs)
All-select P p [] h = tt
All-select P p (x ∷ xs) h = elim (Bool-cases (p x)) [
  | inl taken ↦ rw taken ((taken, h.0), All-select P p xs h.1)
  | inr left ↦ rw left (All-select P p xs h.1)
]

-- Each element of an enumeration is the one of its index.
abbrev pub Indexed : {A : Type 0} → List A → ℕ → ℕ × A → Type 0
Indexed xs k e = (k ≤ e.0) × (nth xs (e.0 - k) ≡ some e.1)

pub Indexed-suc :
    {A : Type 0} (x : A) (xs : List A) (k : ℕ) (e : ℕ × A)
    → Indexed xs (suc k) e
    → Indexed (x ∷ xs) k e
Indexed-suc x xs k (idx, y) (later, found) =
    let further : idx - k ≡ suc (idx - suc k) = omega arith in
    (omega arith, ap (nth (x ∷ xs)) further ∙ found)

pub All-map :
    {A : Type 0} (P Q : A → Type 0) (xs : List A) → ((x : A) → P x → Q x) → All P xs → All Q xs
All-map P Q [] imp h = tt
All-map P Q (x ∷ xs) imp h = (imp x h.0, All-map P Q xs imp h.1)

pub enumerate_from-Indexed :
    {A : Type 0} (k : ℕ) (xs : List A) → All (Indexed xs k) (enumerate_from k xs)
enumerate_from-Indexed k [] = tt
enumerate_from-Indexed k (x ∷ xs) =
    let first : k - k ≡ 0 = omega arith in
    (
      (omega arith, ap (nth (x ∷ xs)) first),
      All-map (Indexed xs (suc k)) (Indexed (x ∷ xs) k) (enumerate_from (suc k) xs)
          (Indexed-suc x xs k) (enumerate_from-Indexed (suc k) xs),
    )

-- The first element, if there is one, need not come before x.
abbrev pub Follows : {A : Type 0} → (A → A → Bool) → A → List A → Type 0
Follows precedes x [] = Unit
Follows precedes x (y ∷ ys) = precedes y x ≡ false

-- Each element may stand before the next one.
abbrev pub Settled : {A : Type 0} → (A → A → Bool) → List A → Type 0
Settled precedes [] = Unit
Settled precedes (x ∷ xs) = Follows precedes x xs × Settled precedes xs

abbrev pub IsAsymmetric : {A : Type 0} → (A → A → Bool) → Type 0
IsAsymmetric {A} precedes = (a b : A) → precedes a b ≡ true → precedes b a ≡ false

Follows-insert_by :
    {A : Type 0} (precedes : A → A → Bool) (x y : A) (ys : List A)
    → precedes x y ≡ false
    → Follows precedes y ys
    → Follows precedes y (insert_by precedes x ys)
Follows-insert_by precedes x y [] new h = new
Follows-insert_by precedes x y (z ∷ zs) new h = elim (Bool-cases (precedes z x)) [
  | inl before ↦ rw before h
  | inr after ↦ rw after new
]

insert_by-Settled :
    {A : Type 0} (precedes : A → A → Bool) (asym : IsAsymmetric precedes) (x : A) (ys : List A)
    → Settled precedes ys
    → Settled precedes (insert_by precedes x ys)
insert_by-Settled precedes asym x [] h = (tt, tt)
insert_by-Settled precedes asym x (y ∷ ys) h = elim (Bool-cases (precedes y x)) [
  | inl before ↦ rw before (
    Follows-insert_by precedes x y ys (asym y x before) h.0,
    insert_by-Settled precedes asym x ys h.1,
  )
  | inr after ↦ rw after (after, h)
]

pub sort_by-Settled :
    {A : Type 0} (precedes : A → A → Bool)
    → IsAsymmetric precedes
    → (xs : List A) → Settled precedes (sort_by precedes xs)
sort_by-Settled precedes asym [] = tt
sort_by-Settled precedes asym (x ∷ xs) =
    insert_by-Settled precedes asym x (sort_by precedes xs) (sort_by-Settled precedes asym xs)
