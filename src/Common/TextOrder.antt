-- ===== src/Common/TextOrder.antt =====
-- The order of texts by their code points.
use Prim.Native.String.{[], ◌∷◌, then, compare}
use Prim.Native.Nat.{ℕ, zero, suc, Ordering, compare as compare_ℕ}
use Prim.Native.Char.{code}
use Prim.Native.Nat.compare as NatClauses
use Prim.Native.String.compare as TextClauses
use hermes_personal_options.Common.{
  Bool, true, false, String, ◌≡◌, refl, ◌∙◌, sym, ap, Bool-cases, inl, inr, str_eq, eq_iff,
}

abbrev is_lt : Ordering → Bool
is_lt Ordering.lt = true
is_lt Ordering.eq = false
is_lt Ordering.gt = false

-- Texts by their code points.
unfoldable pub before_text : String → String → Bool
before_text s t = is_lt (compare s t)

abbrev flip : Ordering → Ordering
flip Ordering.lt = Ordering.gt
flip Ordering.eq = Ordering.eq
flip Ordering.gt = Ordering.lt

compare_ℕ_flip : (m n : ℕ) → compare_ℕ n m ≡ flip (compare_ℕ m n)
compare_ℕ_flip zero zero =
    let same : compare_ℕ zero zero ≡ Ordering.eq = λ i. NatClauses.zero-zero i in rw same refl
compare_ℕ_flip zero (suc n) =
    let below : compare_ℕ zero (suc n) ≡ Ordering.lt = λ i. NatClauses.zero-suc n i in
    let above : compare_ℕ (suc n) zero ≡ Ordering.gt = λ i. NatClauses.suc-zero n i in
    rw below (rw above refl)
compare_ℕ_flip (suc m) zero =
    let below : compare_ℕ zero (suc m) ≡ Ordering.lt = λ i. NatClauses.zero-suc m i in
    let above : compare_ℕ (suc m) zero ≡ Ordering.gt = λ i. NatClauses.suc-zero m i in
    rw below (rw above refl)
compare_ℕ_flip (suc m) (suc n) =
    let there : compare_ℕ (suc n) (suc m) ≡ compare_ℕ n m = λ i. NatClauses.suc-suc n m i in
    let here : compare_ℕ (suc m) (suc n) ≡ compare_ℕ m n = λ i. NatClauses.suc-suc m n i in
    there ∙ compare_ℕ_flip m n ∙ ap flip (sym here)

then-flip : (o p : Ordering) → then (flip o) (flip p) ≡ flip (then o p)
then-flip Ordering.lt p = refl
then-flip Ordering.eq p = refl
then-flip Ordering.gt p = refl

compare-flip : (s t : String) → compare t s ≡ flip (compare s t)
compare-flip [] [] =
    let same : compare [] [] ≡ Ordering.eq = λ i. TextClauses.nil-nil i in rw same refl
compare-flip [] (d ∷ t) =
    let below : compare [] (d ∷ t) ≡ Ordering.lt = λ i. TextClauses.nil-cons d t i in
    let above : compare (d ∷ t) [] ≡ Ordering.gt = λ i. TextClauses.cons-nil d t i in
    rw below (rw above refl)
compare-flip (c ∷ s) [] =
    let below : compare [] (c ∷ s) ≡ Ordering.lt = λ i. TextClauses.nil-cons c s i in
    let above : compare (c ∷ s) [] ≡ Ordering.gt = λ i. TextClauses.cons-nil c s i in
    rw below (rw above refl)
compare-flip (c ∷ s) (d ∷ t) =
    let there : compare (d ∷ t) (c ∷ s) ≡ then (compare_ℕ (code d) (code c)) (compare t s) =
      λ i. TextClauses.cons-cons d c t s i in
    let here : compare (c ∷ s) (d ∷ t) ≡ then (compare_ℕ (code c) (code d)) (compare s t) =
      λ i. TextClauses.cons-cons c d s t i in
    there
    ∙ rw (compare_ℕ_flip (code c) (code d))
        (rw (compare-flip s t) (then-flip (compare_ℕ (code c) (code d)) (compare s t)))
    ∙ ap flip (sym here)

flip-lt : (o : Ordering) → is_lt o ≡ true → is_lt (flip o) ≡ false
flip-lt Ordering.lt h = refl
flip-lt Ordering.eq h = refl
flip-lt Ordering.gt h = absurd (cc h)

pub before_text_asymmetric : (s t : String) → before_text s t ≡ true → before_text t s ≡ false
unfolding before_text
before_text_asymmetric s t h = rw (compare-flip s t) (flip-lt (compare s t) h)

pub str_eq_sym : (s t : String) → str_eq s t ≡ str_eq t s
str_eq_sym s t = elim (Bool-cases (str_eq s t)) [
  | inl same ↦ let equal : s ≡ t = (eq_iff s t).0 same in same ∙ sym ((eq_iff t s).1 (sym equal))
  | inr other ↦ elim (Bool-cases (str_eq t s)) [
    | inl same ↦ absurd (cc ((eq_iff s t).1 (sym ((eq_iff t s).0 same)), other))
    | inr neither ↦ other ∙ sym neither
  ]
]
