-- ===== src/Brokers/Fake/Retry.antt =====
-- What a second submission with one key gets from a fake broker, whatever happened in between.
use mathlib.Core.Path.{subst}
use hermes_personal_options.Common.{
  ◌≡◌, refl, sym, ◌∙◌, ap, true, some, ok, String, str_eq, arith, Bool-cases, inl, inr, ◌⊎◌,
}
use hermes_personal_options.Common.Dict.{get, set, get-set_same, get-set_other, same_key}
use hermes_personal_options.Time.{AwareDateTime}
use hermes_personal_options.Schemas.Enums.{is_paper_submit}
use hermes_personal_options.Schemas.BrokerSubmission.{BrokerSubmitIntent, BrokerOrderId}
use hermes_personal_options.Brokers.Base.{BrokerFill, is_open}
use hermes_personal_options.Brokers.Fake.{
  FakeKind, FakeBroker, order_id_value, submit_order, get_order, cancelled_fill, cancel_order,
}
use hermes_personal_options.Brokers.Fake.Invariant.{well_formed}
use hermes_personal_options.Brokers.Fake.Orders.{
  submit_recorded, submit_order-eq-ok, recorded_after, submit_order-well_formed,
}
use hermes_personal_options.Brokers.Fake.Cancellation.{
  entry_of, get_order_of, cancel_order-replaces, cancel_order-well_formed,
}

-- The submissions and cancellations that lead from one broker to another, in any order.
pub data Run (kind : FakeKind) (b : FakeBroker) : FakeBroker → Type 0 where
  here : Run kind b b
  submitted :
      {mid later : FakeBroker} {f : BrokerFill} (i : BrokerSubmitIntent) (now : AwareDateTime)
      → Run kind b mid
      → submit_order kind mid i now ≡ ok (f, later)
      → Run kind b later
  cancelled :
      {mid later : FakeBroker} {f : BrokerFill} (order_id : BrokerOrderId) (now : AwareDateTime)
      → Run kind b mid
      → cancel_order mid order_id now ≡ ok (f, later)
      → Run kind b later

-- The same fill still, or its cancellation, if it was open.
abbrev pub Continues : BrokerFill → BrokerFill → Type 0
Continues f g =
    (g ≡ f)
    ⊎ ((is_open f.lifecycle_state ≡ true) × (when : AwareDateTime) × (g ≡ cancelled_fill f when))

-- A cancelled fill is not cancelled again.
Continues-cancelled :
    (f g : BrokerFill) (now : AwareDateTime)
    → Continues f g
    → is_open g.lifecycle_state ≡ true
    → Continues f (cancelled_fill g now)
Continues-cancelled f g now (inl same) open_state = inr (
  ap (λ (x : BrokerFill). is_open x.lifecycle_state) (sym same) ∙ open_state,
  now,
  ap (λ x. cancelled_fill x now) same,
)
Continues-cancelled f g now (inr (was_open, when, same)) open_state =
    absurd (cc (ap (λ (x : BrokerFill). is_open x.lifecycle_state) same, open_state))

-- The order of a key stands in a well-formed broker.
abbrev Stands : BrokerFill → String → FakeBroker → Type 0
Stands f key c =
    (well_formed c ≡ true) × (g : BrokerFill) × Continues f g × (get c.fills key ≡ some g)

Stands-submitted :
    (kind : FakeKind) (f : BrokerFill) (key : String) (c later : FakeBroker)
    (i : BrokerSubmitIntent) (now : AwareDateTime) (h : BrokerFill)
    → Stands f key c
    → submit_order kind c i now ≡ ok (h, later)
    → Stands f key later
Stands-submitted kind f key c later i now h (well, g, continues, there) done = (
  submit_order-well_formed kind c i now h later well done,
  g,
  continues,
  elim (submit_order-eq-ok kind c i now h later done) [
    | inl (found, same) ↦ ap (λ (x : FakeBroker). get x.fills key) (sym same) ∙ there
    | inr (new, made, same) ↦
        ap (λ (x : FakeBroker). get x.fills key) (sym same)
        ∙ elim (Bool-cases (str_eq i.idempotency_key key)) [
          | inl equal ↦
              absurd (cc (ap (get c.fills) (same_key i.idempotency_key key equal), new, there))
          | inr other ↦ get-set_other c.fills i.idempotency_key key h other ∙ there
        ]
  ],
)

Stands-cancelled :
    (f : BrokerFill) (key : String) (c later : FakeBroker) (order_id : BrokerOrderId)
    (now : AwareDateTime) (h : BrokerFill)
    → Stands f key c
    → cancel_order c order_id now ≡ ok (h, later)
    → Stands f key later
Stands-cancelled f key c later order_id now h (well, g, continues, there) done =
    let (other, k, found, open_state, same) =
      cancel_order-replaces c order_id now h later well done in
    let after = ap (λ (x : FakeBroker). get x.fills key) (sym same) in
    let still = cancel_order-well_formed c order_id now h later well done in
    elim (Bool-cases (str_eq other key)) as (λ x. Stands f key later) [
      | inl equal ↦
          let one : other ≡ key = same_key other key equal in
          let this : k ≡ g = cc (ap (get c.fills) one, found, there) in
          (
            still,
            cancelled_fill k now,
            Continues-cancelled f k now (subst (Continues f) (sym this) continues) open_state,
            after
                ∙ ap (get (set c.fills other (cancelled_fill k now))) (sym one)
                ∙ get-set_same c.fills other (cancelled_fill k now),
          )
      | inr different ↦ (
        still,
        g,
        continues,
        after ∙ get-set_other c.fills other key (cancelled_fill k now) different ∙ there,
      )
    ]

Stands-Run :
    (kind : FakeKind) (f : BrokerFill) (key : String) (c later : FakeBroker)
    → Stands f key c
    → Run kind c later
    → Stands f key later
Stands-Run kind f key c later h here = h
Stands-Run kind f key c later h (submitted {mid = mid} {f = answer} i now run done) =
    Stands-submitted kind f key mid later i now answer (Stands-Run kind f key c mid h run) done
Stands-Run kind f key c later h (cancelled {mid = mid} {f = answer} order_id now run done) =
    Stands-cancelled f key mid later order_id now answer (Stands-Run kind f key c mid h run) done

-- A paper submission with the key of one that a well-formed broker has answered places no second order,
-- whatever submissions and cancellations came between: it leaves the broker as it is, and its answer
-- is the order that was answered first, as a lookup finds it, which is the fill of the first answer
-- or, if that was open, its cancellation.
pub submit_order-retry :
    (kind : FakeKind) (b : FakeBroker) (i j : BrokerSubmitIntent) (now time : AwareDateTime)
    (f : BrokerFill) (after later : FakeBroker)
    → well_formed b ≡ true
    → submit_order kind b i now ≡ ok (f, after)
    → Run kind after later
    → j.idempotency_key ≡ i.idempotency_key
    → is_paper_submit j.submit_mode ≡ true
    → (g : BrokerFill) × Continues f g
      × (submit_order kind later j time ≡ ok (g, later))
      × (get_order later f.broker_order_id ≡ ok g)
submit_order-retry kind b i j now time f after later h done run one_key paper =
    let key = i.idempotency_key in
    let first = recorded_after kind b i now f after done in
    let well = submit_order-well_formed kind b i now f after h done in
    let entry = entry_of after key f well first in
    let id = same_key f.broker_order_id.value (order_id_value key) (ground arith) in
    let (still, g, continues, there) =
      Stands-Run kind f key after later (well, f, inl refl, first) run in
    let entry' = entry_of later key g still there in
    (
      g,
      continues,
      submit_recorded kind later j time g paper (ap (get later.fills) one_key ∙ there),
      get_order_of later key g f.broker_order_id id (ground arith) there,
    )
