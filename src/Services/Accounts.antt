-- ===== src/Services/Accounts.antt =====
-- services/paper_cycle.py: the orders of a broker and the rows of a store, across one call.
use mathlib.Core.Path.{subst}
use hermes_personal_options.Common.{
  true, false, some, List, [], ◌∷◌, String, Result, ok, err, >>-eq-ok, All, is_absent, ◌≡◌, refl,
  inl, inr, Bool-cases, eq_iff, str_eq,
}
use hermes_personal_options.Common.Dict.{get, set}
use hermes_personal_options.Common.Sort.{All-map}
use hermes_personal_options.Time.{AwareDateTime}
use hermes_personal_options.Schemas.Enums.{is_paper_submit}
use hermes_personal_options.Schemas.BrokerSubmission.{BrokerSubmitIntent}
use hermes_personal_options.Brokers.Base.{BrokerFill}
use hermes_personal_options.Brokers.Fake.{FakeBroker}
use hermes_personal_options.Brokers.Fake.Orders.{submit_order-eq-ok, paper_only}
use hermes_personal_options.Brokers.Paper.{PaperSubmitApproval, validate_submit, submit_order}
use hermes_personal_options.Storage.Models.{StorageError, StoredEvent}
use hermes_personal_options.Services.Steps.{Memory}
use hermes_personal_options.Services.Paper.{LocalPaperBroker, noted, attempted}

-- Keys that a dict has after an assignment.
All-set :
    {V : Type 0} (P : String → Type 0) (d : List (String × V)) (k : String) (v : V)
    → P k
    → All (λ e. P e.0) d
    → All (λ e. P e.0) (set d k v)
All-set P [] k v here h = (here, tt)
All-set P (e ∷ d) k v here h = elim (Bool-cases (str_eq e.0 k)) [
  | inl same ↦ rw same h
  | inr other ↦ rw other (h.0, All-set P d k v here h.1)
]

pub own_keys : {V : Type 0} (d : List (String × V)) → All (λ e. is_absent (get d e.0) ≡ false) d
own_keys [] = tt
own_keys (e ∷ d) = (
  rw ((eq_iff e.0 e.0).1 refl) refl,
  All-map (λ x. is_absent (get d x.0) ≡ false) (λ x. is_absent (get (e ∷ d) x.0) ≡ false) d
      (λ x there. elim (Bool-cases (str_eq e.0 x.0)) [
        | inl same ↦ rw same refl
        | inr other ↦ rw other there
      ])
      (own_keys d),
)

-- Predicates on the keys of a broker's orders, across a submission.
pub submit_order-All :
    (digest : BrokerSubmitIntent → String) (broker : LocalPaperBroker) (P : String → Type 0)
    (b : FakeBroker) (i : BrokerSubmitIntent) (a : PaperSubmitApproval) (now : AwareDateTime)
    (fill : BrokerFill) (after : FakeBroker)
    → submit_order digest broker.config broker.kind b i (some a) now ≡ ok (fill, after)
    → All (λ e. P e.0) b.fills
    → ((validate_submit digest broker.config i (some a) ≡ ok tt)
        → is_paper_submit i.submit_mode ≡ true
        → P i.idempotency_key)
    → All (λ e. P e.0) after.fills
unfolding submit_order
submit_order-All digest broker P b i a now fill after h all new =
    let (passed, inner) = >>-eq-ok _ _ h in
    let allowed : P i.idempotency_key = new passed (paper_only broker.kind b i now inner) in
    elim (submit_order-eq-ok broker.kind b i now fill after inner) [
      | inl (found, same) ↦ subst (λ x. All (λ e. P e.0) x.fills) same all
      | inr (fresh, made, same) ↦
          subst (λ x. All (λ e. P e.0) x.fills) same
            (All-set P b.fills i.idempotency_key fill allowed all)
    ]

pub noted-store :
    {S : Type 0} (m : Memory S) (r : Result StorageError StoredEvent × S)
    → ((noted m r).1.store ≡ r.1) × ((noted m r).1.broker ≡ m.broker)
noted-store m (err e, s) = (refl, refl)
noted-store m (ok event, s) = (refl, refl)

pub attempted-store :
    {S : Type 0} (m : Memory S) (r : Result StorageError StoredEvent × S)
    → ((attempted m r).1.store ≡ r.1) × ((attempted m r).1.broker ≡ m.broker)
attempted-store m (err StorageError.duplicate_idempotency_key, s) = (refl, refl)
attempted-store m (err e, s) = (refl, refl)
attempted-store m (ok event, s) = (refl, refl)

pub attempted-true :
    {S : Type 0} (m : Memory S) (r : Result StorageError StoredEvent × S)
    → (attempted m r).0 ≡ ok true
    → (event : StoredEvent) × (r ≡ (ok event, (attempted m r).1.store))
attempted-true m (err StorageError.duplicate_idempotency_key, s) h = absurd (cc h)
attempted-true m (err e, s) h = absurd (cc h)
attempted-true m (ok event, s) h = (event, refl)
