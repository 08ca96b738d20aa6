-- ===== src/Brokers/Fake/Cancellation.antt =====
-- Lookup and cancellation at a well-formed fake broker, and the brokers that calls lead to.
use hermes_personal_options.Common.{
  ◌≡◌, refl, sym, ◌∙◌, ap, true, false, Option, none, some, ok, err, >>=-eq-ok, ok-pair, String,
  ltb, eq_iff, arith, Bool-cases, Option-cases, inl, inr,
}
use hermes_personal_options.Common.Dict.{
  get, set, all_entries-get, get-set_same, same_key, all_entries-set,
}
use hermes_personal_options.Time.{AwareDateTime}
use hermes_personal_options.Schemas.Enums.{internal_contradiction}
use hermes_personal_options.Schemas.Model.{construct-ok}
use hermes_personal_options.Schemas.BrokerSubmission.{BrokerSubmitIntent, BrokerOrderId}
use hermes_personal_options.Brokers.Base.{
  BrokerFill, fill_valid, is_open, broker_error, order_not_cancellable,
}
use hermes_personal_options.Brokers.Fake.{
  FakeKind, FakeBroker, order_id_value, submit_order, get_order, fill_at, cancelled_fill,
  store_cancelled, cancel_order,
}
use hermes_personal_options.Brokers.Fake.Invariant.{
  fill_sound, fill_entry, well_formed, is_key, indexed, index-set_fill,
}
use hermes_personal_options.Brokers.Fake.Orders.{recorded_after, submit_order-well_formed}

-- The fill of a key, in a well-formed broker.
pub entry_of :
    (b : FakeBroker) (key : String) (f : BrokerFill)
    → well_formed b ≡ true
    → get b.fills key ≡ some f
    → fill_entry b.index key f ≡ true
unfolding well_formed
entry_of b key f h found = all_entries-get (fill_entry b.index) b.fills key f (ground arith) found

is_key-some : (key : String) (o : Option String) → is_key key o ≡ true → o ≡ some key
is_key-some key none h = cc
is_key-some key (some k) h = ap some ((eq_iff k key).0 h)

get_order_at :
    (b : FakeBroker) (order_id : BrokerOrderId) (key : String) (f : BrokerFill)
    → get b.index order_id.value ≡ some key
    → get b.fills key ≡ some f
    → get_order b order_id ≡ ok f
unfolding get_order
get_order_at b order_id key f index found = rw (index, get_order) (rw (found, fill_at) refl)

pub get_order_of :
    (b : FakeBroker) (key : String) (f : BrokerFill) (order_id : BrokerOrderId)
    → order_id.value ≡ order_id_value key
    → indexed b.index key ≡ true
    → get b.fills key ≡ some f
    → get_order b order_id ≡ ok f
get_order_of b key f order_id id index found =
    get_order_at b order_id key f
      (ap (get b.index) id ∙ is_key-some key (get b.index (order_id_value key)) index) found

-- The order that a submission answers with is found under its id.
pub get_order-submitted :
    (kind : FakeKind) (b : FakeBroker) (i : BrokerSubmitIntent) (now : AwareDateTime)
    (f : BrokerFill) (after : FakeBroker)
    → well_formed b ≡ true
    → submit_order kind b i now ≡ ok (f, after)
    → get_order after f.broker_order_id ≡ ok f
get_order-submitted kind b i now f after h done =
    let found = recorded_after kind b i now f after done in
    let entry =
      entry_of after i.idempotency_key f (submit_order-well_formed kind b i now f after h done)
        found in
    get_order_of after i.idempotency_key f f.broker_order_id
      (same_key f.broker_order_id.value (order_id_value i.idempotency_key) (ground arith))
      (ground arith) found

-- An order that is found has a key.
pub get_order-eq-ok :
    (b : FakeBroker) (order_id : BrokerOrderId) (f : BrokerFill)
    → get_order b order_id ≡ ok f
    → (key : String) × (get b.index order_id.value ≡ some key) × (get b.fills key ≡ some f)
unfolding get_order
get_order-eq-ok b order_id f h = elim (Option-cases (get b.index order_id.value)) [
  | inl absent ↦ absurd (ground arith)
  | inr (key, found) ↦ elim (Option-cases (get b.fills key)) [
    | inl missing ↦ absurd (ground arith)
    | inr (g, there) ↦ (key, found, ground arith)
  ]
]

-- What a well-formed broker knows of an order that is found.
found_sound :
    (b : FakeBroker) (order_id : BrokerOrderId) (f : BrokerFill)
    → well_formed b ≡ true
    → get_order b order_id ≡ ok f
    → fill_sound f ≡ true
found_sound b order_id f h found =
    let (key, index, there) = get_order-eq-ok b order_id f found in
    let entry = entry_of b key f h there in ground arith

open-lacks :
    (f : BrokerFill)
    → fill_sound f ≡ true
    → is_open f.lifecycle_state ≡ true
    → ltb f.filled_contracts f.requested_contracts ≡ true
unfolding fill_sound
open-lacks f h open_state = ground arith

-- A cancelled fill is sound, if the fill was open.
cancelled_sound :
    (f : BrokerFill) (now : AwareDateTime)
    → fill_sound f ≡ true
    → is_open f.lifecycle_state ≡ true
    → fill_sound (cancelled_fill f now) ≡ true
unfolding fill_sound
cancelled_sound f now h open_state = ground (arith, open-lacks f h open_state)

sound-valid : (f : BrokerFill) → fill_sound f ≡ true → fill_valid f ≡ true
unfolding fill_sound fill_valid
sound-valid f h = ground arith

-- The broker after a cancellation.
abbrev pub after_cancel : FakeBroker → String → BrokerFill → AwareDateTime → FakeBroker
after_cancel b key f now = record b { fills = set b.fills key (cancelled_fill f now) }

-- Cancelling an open order.
cancel_open :
    (b : FakeBroker) (order_id : BrokerOrderId) (now : AwareDateTime) (f : BrokerFill)
    (key : String)
    → fill_valid (cancelled_fill f now) ≡ true
    → get_order b order_id ≡ ok f
    → get b.index order_id.value ≡ some key
    → is_open f.lifecycle_state ≡ true
    → cancel_order b order_id now ≡ ok (cancelled_fill f now, after_cancel b key f now)
unfolding cancel_order
cancel_open b order_id now f key valid found index open_state = rw found (
    rw open_state (
      rw (construct-ok fill_valid (cancelled_fill f now) valid) (rw (index, store_cancelled) refl)))

-- Cancelling an order that is closed.
pub cancel_order-closed :
    (b : FakeBroker) (order_id : BrokerOrderId) (now : AwareDateTime) (f : BrokerFill)
    → get_order b order_id ≡ ok f
    → is_open f.lifecycle_state ≡ false
    → cancel_order b order_id now ≡ err (broker_error order_not_cancellable internal_contradiction)
unfolding cancel_order
cancel_order-closed b order_id now f found closed = rw found (rw closed refl)

-- Cancelling an open order of a well-formed broker succeeds: the order then is CANCELLED, found
-- under its id, with the contracts that were filled, of which one lacks at least.
pub cancel_order-open :
    (b : FakeBroker) (order_id : BrokerOrderId) (now : AwareDateTime) (f : BrokerFill)
    → well_formed b ≡ true
    → get_order b order_id ≡ ok f
    → is_open f.lifecycle_state ≡ true
    → (after : FakeBroker) × (cancel_order b order_id now ≡ ok (cancelled_fill f now, after))
      × (get_order after order_id ≡ ok (cancelled_fill f now))
      × (ltb f.filled_contracts f.requested_contracts ≡ true)
cancel_order-open b order_id now f h found open_state =
    let (key, index, there) = get_order-eq-ok b order_id f found in
    let sound = found_sound b order_id f h found in
    let valid = sound-valid (cancelled_fill f now) (cancelled_sound f now sound open_state) in
    (
      after_cancel b key f now,
      cancel_open b order_id now f key valid found index open_state,
      get_order_at (after_cancel b key f now) order_id key (cancelled_fill f now) index
          (get-set_same b.fills key (cancelled_fill f now)),
      open-lacks f sound open_state,
    )

cancel_order-eq-ok :
    (b : FakeBroker) (order_id : BrokerOrderId) (now : AwareDateTime) (g : BrokerFill)
    (after : FakeBroker)
    → cancel_order b order_id now ≡ ok (g, after)
    → (f : BrokerFill) × (get_order b order_id ≡ ok f) × (is_open f.lifecycle_state ≡ true)
unfolding cancel_order
cancel_order-eq-ok b order_id now g after h =
    let (f, found, rest) = >>=-eq-ok (get_order b order_id) _ h in
    (
      f,
      found,
      elim (Bool-cases (is_open f.lifecycle_state)) [
        | inl open_state ↦ open_state
        | inr closed ↦ absurd (cc (cancel_order-closed b order_id now f found closed, h))
      ],
    )

-- An entry of the fills, with another fill of the same order in its place.
after_cancel-well_formed :
    (b : FakeBroker) (key : String) (f : BrokerFill) (now : AwareDateTime)
    → well_formed b ≡ true
    → get b.fills key ≡ some f
    → is_open f.lifecycle_state ≡ true
    → well_formed (after_cancel b key f now) ≡ true
unfolding well_formed
after_cancel-well_formed b key f now h there open_state =
    let entry = entry_of b key f h there in
    let sound = cancelled_sound f now (ground arith) open_state in
    let fills =
      all_entries-set (fill_entry b.index) b.fills key (cancelled_fill f now) (ground arith)
        (ground arith) in
    ground (arith, fills, index-set_fill b key (cancelled_fill f now) (ground arith))

-- What a cancellation replaces: the open fill of one key by its cancellation.
pub cancel_order-replaces :
    (b : FakeBroker) (order_id : BrokerOrderId) (now : AwareDateTime) (g : BrokerFill)
    (after : FakeBroker)
    → well_formed b ≡ true
    → cancel_order b order_id now ≡ ok (g, after)
    → (key : String) × (f : BrokerFill) × (get b.fills key ≡ some f)
      × (is_open f.lifecycle_state ≡ true)
      × (after_cancel b key f now ≡ after)
cancel_order-replaces b order_id now g after h done =
    let (f, found, open_state) = cancel_order-eq-ok b order_id now g after done in
    let (key, index, there) = get_order-eq-ok b order_id f found in
    let sound = found_sound b order_id f h found in
    let valid = sound-valid (cancelled_fill f now) (cancelled_sound f now sound open_state) in
    let (_, same) =
      ok-pair (sym (cancel_open b order_id now f key valid found index open_state) ∙ done) in
    (key, f, there, open_state, same)

-- A cancellation keeps a broker well formed.
pub cancel_order-well_formed :
    (b : FakeBroker) (order_id : BrokerOrderId) (now : AwareDateTime) (g : BrokerFill)
    (after : FakeBroker)
    → well_formed b ≡ true
    → cancel_order b order_id now ≡ ok (g, after)
    → well_formed after ≡ true
cancel_order-well_formed b order_id now g after h done =
    let (key, f, there, open_state, same) = cancel_order-replaces b order_id now g after h done in
    ap well_formed (sym same) ∙ after_cancel-well_formed b key f now h there open_state
