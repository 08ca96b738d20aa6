-- ===== src/Brokers/Fake/Simulation.antt =====
-- What the fake brokers simulate, and that every reachable broker is well formed.
use hermes_personal_options.Common.{
  ℕ, ◌-◌, ◌≡◌, refl, sym, ◌∙◌, ap, Bool, true, false, ok, >>=-eq-ok, leb, ltb, ◌==◌, ==_iff, arith,
  Bool-cases, inl, inr, if◌then◌else◌,
}
use hermes_personal_options.Time.{AwareDateTime}
use hermes_personal_options.Schemas.Enums.{
  OrderLifecycleState, is_filled, working, partial_fill, filled,
}
use hermes_personal_options.Schemas.Model.{construct}
use hermes_personal_options.Schemas.BrokerSubmission.{
  BrokerSubmitIntent, BrokerOrderId, broker_order_id_valid,
}
use hermes_personal_options.Brokers.Base.{BrokerFill, fill_valid, model_outcome}
use hermes_personal_options.Brokers.Fake.{
  FakeKind, fake_fill, fake_reject, fake_partial_fill, fake_disconnect, fake_slow,
  fake_duplicate_ack, FakeBroker, order_id_value, order_id_for, requested, fill_of, make_fill,
  simulate,
}
use hermes_personal_options.Brokers.Fake.Invariant.{fill_sound}

model_outcome-eq-ok :
    {A : Type 0} (valid : A → Bool) (a : A) {b : A}
    → model_outcome (construct valid a) ≡ ok b
    → (valid a ≡ true) × (a ≡ b)
model_outcome-eq-ok valid a h = elim (Bool-cases (valid a)) [
  | inl accepted ↦ (accepted, ground arith)
  | inr refused ↦ absurd (ground arith)
]

-- The id of an order.
abbrev pub id_of : FakeBroker → BrokerSubmitIntent → BrokerOrderId
id_of b i = record { value = order_id_value i.idempotency_key; broker_name = b.broker_name }

make_fill-eq-ok :
    (b : FakeBroker) (i : BrokerSubmitIntent) (lifecycle : OrderLifecycleState) (count : ℕ)
    (completed : Bool) (now : AwareDateTime) {f : BrokerFill}
    → make_fill b i lifecycle count completed now ≡ ok f
    → (ltb 0 (requested i) ≡ true) × (fill_of i (id_of b i) lifecycle count completed now ≡ f)
unfolding make_fill order_id_for fill_valid
make_fill-eq-ok b i lifecycle count completed now h =
    let (order_id, id_ok, made) = >>=-eq-ok (order_id_for b i) _ h in
    let (_, same_id) = model_outcome-eq-ok broker_order_id_valid (id_of b i) id_ok in
    let (positive, same) =
      model_outcome-eq-ok fill_valid (fill_of i order_id lifecycle count completed now) made in
    (positive, ap (λ o. fill_of i o lifecycle count completed now) same_id ∙ same)

-- What a simulated fill has in common, of every broker.
abbrev pub SimulatedFill : FakeBroker → BrokerSubmitIntent → AwareDateTime → BrokerFill → Type 0
SimulatedFill b i now f =
    (state : OrderLifecycleState) × (count : ℕ) × (completed : Bool) × (fill_of i (id_of b i) state
        count completed now
      ≡ f)
    × (fill_sound f ≡ true)

-- A full fill, and a fill that lacks a contract.
fill_of_sound :
    (i : BrokerSubmitIntent) (o : BrokerOrderId) (state : OrderLifecycleState) (count : ℕ)
    (completed : Bool) (now : AwareDateTime)
    → ltb 0 (requested i) ≡ true
    → (if is_filled state then count == requested i else ltb count (requested i)) ≡ true
    → fill_sound (fill_of i o state count completed now) ≡ true
unfolding fill_sound
fill_of_sound i o state count completed now positive enough = ground arith

simulated :
    (b : FakeBroker) (i : BrokerSubmitIntent) (state : OrderLifecycleState) (count : ℕ)
    (completed : Bool) (now : AwareDateTime) {f : BrokerFill}
    → make_fill b i state count completed now ≡ ok f
    → (ltb 0 (requested i) ≡ true
        → (if is_filled state then count == requested i else ltb count (requested i)) ≡ true)
    → SimulatedFill b i now f
simulated b i state count completed now h enough =
    let (positive, same) = make_fill-eq-ok b i state count completed now h in
    (
      state,
      count,
      completed,
      same,
      ap fill_sound (sym same)
          ∙ fill_of_sound i (id_of b i) state count completed now positive (enough positive),
    )

pub simulate-eq-ok :
    (kind : FakeKind) (b : FakeBroker) (i : BrokerSubmitIntent) (now : AwareDateTime)
    (f : BrokerFill)
    → simulate kind b i now ≡ ok f
    → SimulatedFill b i now f
unfolding simulate
simulate-eq-ok fake_fill b i now f h =
    simulated b i filled (requested i) true now h (λ _. (==_iff _ _).1 refl)
simulate-eq-ok fake_reject b i now f h = absurd cc
simulate-eq-ok fake_partial_fill b i now f h = elim (Bool-cases (leb (requested i) 1)) [
  | inl one ↦ simulated b i working 0 false now (ground arith) (λ positive. positive)
  | inr more ↦
      simulated b i partial_fill (requested i - 1) false now (ground arith)
        (λ positive. ground arith)
]
simulate-eq-ok fake_disconnect b i now f h = absurd cc
simulate-eq-ok fake_slow b i now f h = absurd cc
simulate-eq-ok fake_duplicate_ack b i now f h =
    simulated b i filled (requested i) true now h (λ _. (==_iff _ _).1 refl)
