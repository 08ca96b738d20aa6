-- ===== src/Brokers/Fake/Orders.antt =====
-- The life of an order at a fake broker: submission, and the retry of a key that was answered.
use hermes_personal_options.Common.{
  ◌≡◌, refl, sym, ◌∙◌, ap, true, false, none, some, ok, err, ◌>>=◌, >>=-eq-ok, ok-pair, Bool-cases,
  Option-cases, inl, inr, ◌⊎◌,
}
use hermes_personal_options.Common.Dict.{get, get-set_same}
use hermes_personal_options.Time.{AwareDateTime}
use hermes_personal_options.Schemas.Enums.{is_paper_submit, internal_contradiction}
use hermes_personal_options.Schemas.BrokerSubmission.{BrokerSubmitIntent}
use hermes_personal_options.Brokers.Base.{BrokerFill, broker_error, live_submit_not_permitted}
use hermes_personal_options.Brokers.Fake.{
  FakeKind, FakeBroker, order_id_value, simulate, record_fill, submit_order,
}
use hermes_personal_options.Brokers.Fake.Invariant.{
  fill_sound, well_formed, record_fill-well_formed,
}
use hermes_personal_options.Brokers.Fake.Simulation.{simulate-eq-ok, SimulatedFill}

-- A submission answers with the recorded fill, or records the simulated one.
abbrev pub Submitted :
    FakeKind → FakeBroker → BrokerSubmitIntent → AwareDateTime → BrokerFill → FakeBroker → Type 0
Submitted kind b i now f after =
    ((get b.fills i.idempotency_key ≡ some f) × (b ≡ after))
    ⊎ ((get b.fills i.idempotency_key ≡ none)
        × (simulate kind b i now ≡ ok f)
        × (record_fill b i.idempotency_key f ≡ after))

module _ (kind : FakeKind) (b : FakeBroker) (i : BrokerSubmitIntent) (now : AwareDateTime) where
  pub submit_recorded :
      (f : BrokerFill)
      → is_paper_submit i.submit_mode ≡ true
      → get b.fills i.idempotency_key ≡ some f
      → submit_order kind b i now ≡ ok (f, b)
  unfolding submit_order
  submit_recorded f paper found = rw paper (rw found refl)

  submit_new :
      is_paper_submit i.submit_mode ≡ true
      → get b.fills i.idempotency_key ≡ none
      → submit_order kind b i now
        ≡ (simulate kind b i now >>= λ f. ok (f, record_fill b i.idempotency_key f))
  unfolding submit_order
  submit_new paper new = rw paper (rw new refl)

  submit_live :
      is_paper_submit i.submit_mode ≡ false
      → submit_order kind b i now
        ≡ err (broker_error live_submit_not_permitted internal_contradiction)
  unfolding submit_order
  submit_live live = rw live refl

  pub paper_only :
      {f : BrokerFill} {after : FakeBroker}
      → submit_order kind b i now ≡ ok (f, after)
      → is_paper_submit i.submit_mode ≡ true
  paper_only h = elim (Bool-cases (is_paper_submit i.submit_mode)) [
    | inl paper ↦ paper
    | inr live ↦ absurd (cc (submit_live live, h))
  ]

  pub submit_order-eq-ok :
      (f : BrokerFill) (after : FakeBroker)
      → submit_order kind b i now ≡ ok (f, after)
      → Submitted kind b i now f after
  submit_order-eq-ok f after h = elim (Option-cases (get b.fills i.idempotency_key)) [
    | inl new ↦
        let (g, made, same) =
          >>=-eq-ok (simulate kind b i now) _ (sym (submit_new (paper_only h) new) ∙ h) in
        let (same_fill, same_broker) = ok-pair same in
        inr (
          new,
          made ∙ ap ok same_fill,
          ap (record_fill b i.idempotency_key) (sym same_fill) ∙ same_broker,
        )
    | inr (g, found) ↦
        let same = sym (submit_recorded g (paper_only h) found) ∙ h in
        let (same_fill, same_broker) = ok-pair same in inl (found ∙ ap some same_fill, same_broker)
  ]

pub recorded_after :
    (kind : FakeKind) (b : FakeBroker) (i : BrokerSubmitIntent) (now : AwareDateTime)
    (f : BrokerFill) (after : FakeBroker)
    → submit_order kind b i now ≡ ok (f, after)
    → get after.fills i.idempotency_key ≡ some f
recorded_after kind b i now f after h = elim (submit_order-eq-ok kind b i now f after h) [
  | inl (found, same) ↦ ap (λ (c : FakeBroker). get c.fills i.idempotency_key) (sym same) ∙ found
  | inr (new, made, same) ↦
      ap (λ (c : FakeBroker). get c.fills i.idempotency_key) (sym same)
      ∙ get-set_same b.fills i.idempotency_key f
]

SimulatedFill-facts :
    (b : FakeBroker) (i : BrokerSubmitIntent) (now : AwareDateTime) (f : BrokerFill)
    → SimulatedFill b i now f
    → (f.broker_order_id.value ≡ order_id_value i.idempotency_key) × (fill_sound f ≡ true)
SimulatedFill-facts b i now f (state, count, completed, same, sound) =
    (ap (λ (g : BrokerFill). g.broker_order_id.value) (sym same), sound)

-- A submission keeps a broker well formed.
pub submit_order-well_formed :
    (kind : FakeKind) (b : FakeBroker) (i : BrokerSubmitIntent) (now : AwareDateTime)
    (f : BrokerFill) (after : FakeBroker)
    → well_formed b ≡ true
    → submit_order kind b i now ≡ ok (f, after)
    → well_formed after ≡ true
submit_order-well_formed kind b i now f after h done =
    elim (submit_order-eq-ok kind b i now f after done) [
      | inl (found, same) ↦ ap well_formed (sym same) ∙ h
      | inr (new, made, same) ↦
          let (id, sound) = SimulatedFill-facts b i now f (simulate-eq-ok kind b i now f made) in
          ap well_formed (sym same) ∙ record_fill-well_formed b i.idempotency_key f h id sound
    ]
