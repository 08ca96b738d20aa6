-- ===== src/Schemas/Model.antt =====
-- schemas/base.py: every model is frozen, and an object of it exists only if all its checks pass.
-- A model is a record of its fields and a Boolean test, which holds the bounds of the fields and
-- the model validators; a failed test is pydantic's ValidationError. `extra="forbid"` and
-- `strict=True` are the typing of the record.
use hermes_personal_options.Common.{
  Bool, true, false, Result, ok, err, ◌≡◌, arith, Bool-cases, inl, inr,
}

pub data ModelError : Type 0 where
  validation_error : ModelError

-- `Model(**fields)`
abbrev pub construct {ℓ} : {A : Type ℓ} → (A → Bool) → A → Result ModelError A
construct valid fields = elim (valid fields) [ true ↦ ok fields | false ↦ err validation_error ]

pub construct-ok {ℓ} :
    {A : Type ℓ} (valid : A → Bool) (a : A) → valid a ≡ true → construct valid a ≡ ok a
construct-ok valid a h = rw (h, construct)

-- An object that exists has passed the checks, and has the given fields.
pub construct-eq-ok {ℓ} :
    {A : Type ℓ} (valid : A → Bool) (a : A) {b : A}
    → construct valid a ≡ ok b
    → (valid a ≡ true) × (a ≡ b)
construct-eq-ok valid a h = elim (Bool-cases (valid a)) [
  | inl accepted ↦ (accepted, ground arith)
  | inr refused ↦ absurd (ground arith)
]
