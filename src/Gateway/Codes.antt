-- ===== src/Gateway/Codes.antt =====
-- The list of reason codes that `validate` collects: no code twice, none lost, none added.
use hermes_personal_options.Common.{
  ◌≡◌, refl, Bool, true, false, not, ◌&&◌, ◌||◌, List, [], ◌∷◌, ◌++◌, arith, is_empty, any-append,
  Bool-cases, inl, inr, sym, ◌∙◌, ap,
}
use mathlib.Core.List.{append-nil, append_assoc}
use hermes_personal_options.Schemas.Enums.{ReasonCode, same_reason, same_reason→eq}
use hermes_personal_options.Gateway.Gates.{contains}
use hermes_personal_options.Gateway.Validate.{add, add_all, dedupe}

-- No code stands in the list twice.
abbrev pub no_repeats : List ReasonCode → Bool
no_repeats [] = true
no_repeats (code ∷ codes) = not (contains code codes) && no_repeats codes

pub contains-append :
    (code : ReasonCode) (xs ys : List ReasonCode)
    → contains code (xs ++ ys) ≡ (contains code xs || contains code ys)
contains-append code xs ys = any-append (same_reason code) xs ys

same_reason_sym : (a b : ReasonCode) → same_reason a b ≡ same_reason b a
same_reason_sym a b = elim (Bool-cases (same_reason a b)) [
  | inl same ↦
      ap (λ c. same_reason a c) (sym (same_reason→eq a b same))
      ∙ ap (λ c. same_reason c a) (same_reason→eq a b same)
  | inr other ↦ elim (Bool-cases (same_reason b a)) [
    | inl same ↦
        ap (λ c. same_reason a c) (same_reason→eq b a same)
        ∙ ap (λ c. same_reason c a) (sym (same_reason→eq b a same))
    | inr other' ↦ other ∙ sym other'
  ]
]

no_repeats-snoc :
    (codes : List ReasonCode) (code : ReasonCode)
    → contains code codes ≡ false
    → no_repeats codes ≡ true
    → no_repeats (codes ++ code ∷ []) ≡ true
no_repeats-snoc [] code absent h = refl
no_repeats-snoc (c ∷ codes) code absent h =
    ground (
      arith,
      no_repeats-snoc codes code,
      contains-append c codes (code ∷ []),
      same_reason_sym c code,
    )

contains_of_same :
    (codes : List ReasonCode) (code c : ReasonCode)
    → same_reason c code ≡ true
    → contains code codes ≡ true
    → contains c codes ≡ true
contains_of_same codes code c same present =
    ap (λ a. contains a codes) (same_reason→eq c code same) ∙ present

contains-add :
    (codes : List ReasonCode) (code c : ReasonCode)
    → contains c (add codes code) ≡ (contains c codes || same_reason c code)
unfolding add
contains-add codes code c =
    ground (arith, contains-append c codes (code ∷ []), contains_of_same codes code c)

no_repeats-add :
    (codes : List ReasonCode) (code : ReasonCode)
    → no_repeats codes ≡ true
    → no_repeats (add codes code) ≡ true
unfolding add
no_repeats-add codes code h = ground (arith, no_repeats-snoc codes code)

-- Adding codes to a list without repeats leaves it without repeats.
pub no_repeats-add_all :
    (codes many : List ReasonCode)
    → no_repeats codes ≡ true
    → no_repeats (add_all codes many) ≡ true
unfolding add_all
no_repeats-add_all codes [] h = h
no_repeats-add_all codes (code ∷ many) h =
    no_repeats-add_all (add codes code) many (no_repeats-add codes code h)

-- A code is collected exactly when it was there or is among those added.
pub contains-add_all :
    (c : ReasonCode) (codes many : List ReasonCode)
    → contains c (add_all codes many) ≡ (contains c codes || contains c many)
unfolding add_all
contains-add_all c codes [] = ground arith
contains-add_all c codes (code ∷ many) =
    ground (arith, contains-add_all c (add codes code) many, contains-add codes code c)

is_empty-add : (codes : List ReasonCode) (code : ReasonCode) → is_empty (add codes code) ≡ false
unfolding add
is_empty-add [] code = refl
is_empty-add (c ∷ codes) code = ground arith

add_all_nonempty :
    (codes many : List ReasonCode) → is_empty codes ≡ false → is_empty (add_all codes many) ≡ false
unfolding add_all
add_all_nonempty codes [] h = h
add_all_nonempty codes (code ∷ many) h =
    add_all_nonempty (add codes code) many (is_empty-add codes code)

-- Nothing is collected exactly when nothing was emitted.
pub is_empty-add_all : (many : List ReasonCode) → is_empty (add_all [] many) ≡ is_empty many
unfolding add_all
is_empty-add_all [] = refl
is_empty-add_all (code ∷ many) = add_all_nonempty (add [] code) many (is_empty-add [] code)

absent_before :
    (codes : List ReasonCode) (code : ReasonCode) (many : List ReasonCode)
    → no_repeats (codes ++ code ∷ many) ≡ true
    → contains code codes ≡ false
absent_before [] code many h = refl
absent_before (c ∷ codes) code many h = ground (
  arith,
  absent_before codes code many,
  contains-append c codes (code ∷ many),
  same_reason_sym code c,
)

add_absent :
    (codes : List ReasonCode) (code : ReasonCode)
    → contains code codes ≡ false
    → add codes code ≡ codes ++ code ∷ []
unfolding add
add_absent codes code h = rw h

-- Codes that are new and without repeats are appended as they stand.
add_all_fresh :
    (codes many : List ReasonCode)
    → no_repeats (codes ++ many) ≡ true
    → add_all codes many ≡ codes ++ many
unfolding add_all
add_all_fresh codes [] h = sym (append-nil codes)
add_all_fresh codes (code ∷ many) h = rw (add_absent codes code (absent_before codes code many h)) (
    add_all_fresh (codes ++ code ∷ []) many
      (ap no_repeats (append_assoc codes (code ∷ []) many) ∙ h)
    ∙ append_assoc codes (code ∷ []) many)

-- `dict.fromkeys` changes nothing: the codes have no repeats already.
pub dedupe-add_all : (many : List ReasonCode) → dedupe (add_all [] many) ≡ add_all [] many
unfolding dedupe
dedupe-add_all many = add_all_fresh [] (add_all [] many) (no_repeats-add_all [] many refl)
