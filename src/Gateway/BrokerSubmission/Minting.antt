-- ===== src/Gateway/BrokerSubmission/Minting.antt =====
-- When a ticket may be submitted.
use Prim.Native.String.{◌++◌ as append, count as text_length}
use text.Mathlib.TextLemmas.{length-append}
use hermes_personal_options.Common.{
  ℕ, ◌≡◌, refl, sym, ◌∙◌, ap, Bool, true, false, not, ◌&&◌, Option, none, some, List, [], ◌∷◌,
  String, Result, ok, err, leb, str_eq, eq_iff, is_empty, is_absent, arith, Bool-cases, inl, inr,
  if◌then◌else◌,
}
use hermes_personal_options.Common.Text.{show_ℕ, nonempty_text}
use hermes_personal_options.Decimal.{Decimal}
use hermes_personal_options.Common.Int.{pos, leb_ℤ}
use hermes_personal_options.Time.{DateTime, AwareDateTime, elapsed_us}
use hermes_personal_options.Schemas.Enums.{SubmitMode, is_limit, is_market, is_ticketed}
use hermes_personal_options.Schemas.Model.{construct-ok}
use hermes_personal_options.Schemas.OrderTicket.{
  OrderTicket, OrderLeg, order_ticket_valid, leg_ordering_valid, order_type_permitted,
  allowed_order_types, market_orders_allowed,
}
use hermes_personal_options.Schemas.BrokerSubmission.{
  submit_intent_valid, from_future, is_stale, key_of,
}
use hermes_personal_options.Gateway.BrokerSubmission.{
  reference_time, submit_intent_of, mint_broker_submit_intent,
}

-- The value of a result.
abbrev pub ok_value {ℓ κ} : {E : Type ℓ} {A : Type κ} → Result E A → Option A
ok_value (ok a) = some a
ok_value (err e) = none

-- A LIMIT order has a price, and a MARKET order has none.
abbrev pub price_fits : OrderTicket → Option Decimal → Bool
price_fits t price = if is_limit t.order_type then not (is_absent price) else is_absent price

-- From the time of the ticket on, for 300 s.
abbrev pub in_time : AwareDateTime → AwareDateTime → Bool
in_time created_at now =
    leb_ℤ (pos 0) (elapsed_us created_at now) && leb_ℤ (elapsed_us created_at now) (pos 300000000)

in_time_lem :
    (created_at now : AwareDateTime)
    → in_time created_at now ≡ (not (from_future created_at now) && not (is_stale created_at now))
unfolding from_future is_stale
in_time_lem created_at now = ground arith

-- What a submission requires: an age of 0 s to 300 s, a counter from 1, and the price that the
-- order type has.
abbrev pub may_submit : OrderTicket → ℕ → Option Decimal → AwareDateTime → Bool
may_submit t attempt_counter price now =
    in_time t.created_at now && leb 1 attempt_counter && price_fits t price

leg_ordering-nonempty :
    (legs : List OrderLeg) → leg_ordering_valid legs ≡ true → is_empty legs ≡ false
unfolding leg_ordering_valid
leg_ordering-nonempty [] h = sym h
leg_ordering-nonempty (leg ∷ legs) h = refl

-- A valid ticket has its status and legs, and is for MARKET in an emergency only.
ticket_facts :
    (t : OrderTicket)
    → order_ticket_valid t ≡ true
    → (is_ticketed t.status ≡ true)
      × (is_empty t.legs ≡ false)
      × ((is_market t.order_type && not (market_orders_allowed t.policy)) ≡ false)
unfolding order_ticket_valid order_type_permitted allowed_order_types
ticket_facts t h = (ground arith, leg_ordering-nonempty t.legs (ground arith), ground arith)

str_eq_refl : (s : String) → str_eq s s ≡ true
str_eq_refl s = (eq_iff s s).1 refl

module _ (ticket_digest : OrderTicket → String) where
  key-nonempty :
      (t : OrderTicket) (n : ℕ)
      → text_length (ticket_digest t) ≡ 64
      → str_eq (key_of (ticket_digest t) n) "" ≡ false
  key-nonempty t n fixed =
      nonempty_text _
        (ap (leb 1) (length-append (ticket_digest t) (append ":" (show_ℕ n))) ∙ ground arith)

  submit_intent_of-valid :
      (t : OrderTicket) (attempt_counter : ℕ) (mode : SubmitMode) (price : Option Decimal)
      (now : AwareDateTime)
      → text_length (ticket_digest t) ≡ 64
      → order_ticket_valid t ≡ true
      → may_submit t attempt_counter price now ≡ true
      → submit_intent_valid ticket_digest
          (submit_intent_of ticket_digest t attempt_counter mode price now)
        ≡ true
  unfolding submit_intent_valid
  submit_intent_of-valid t n mode price now fixed valid allowed =
      let hash_matches = str_eq_refl (ticket_digest t) in
      let key_matches = str_eq_refl (key_of (ticket_digest t) n) in
      ground (arith, ticket_facts t valid, key-nonempty t n fixed, in_time_lem t.created_at now)

  -- For a digest of 64 characters, a valid ticket and an aware time, minting gives the intent with the
  -- key of the digest and the counter exactly if the ticket may be submitted then (its age is 0 s to
  -- 300 s, the counter is 1 or more, and a price is there for LIMIT only), and else an error.
  pub mint_broker_submit_intent-decides :
      (t : OrderTicket) (attempt_counter : ℕ) (mode : SubmitMode) (price : Option Decimal)
      (as_of : Option DateTime) (clock now : AwareDateTime)
      → text_length (ticket_digest t) ≡ 64
      → order_ticket_valid t ≡ true
      → reference_time as_of clock ≡ ok now
      → ok_value (mint_broker_submit_intent ticket_digest t attempt_counter mode price as_of clock)
        ≡ (if may_submit t attempt_counter price now
            then some (submit_intent_of ticket_digest t attempt_counter mode price now)
            else none)
  unfolding mint_broker_submit_intent
  mint_broker_submit_intent-decides t n mode price as_of clock now fixed valid at_now =
      rw ((ticket_facts t valid).0) (
        rw at_now (elim (Bool-cases (may_submit t n price now)) [
          | inl allowed ↦
              let minted =
                construct-ok (submit_intent_valid ticket_digest)
                  (submit_intent_of ticket_digest t n mode price now)
                  (submit_intent_of-valid t n mode price now fixed valid allowed) in
              rw minted (ground (arith, in_time_lem t.created_at now))
          | inr refused ↦ ground (arith, in_time_lem t.created_at now)
        ]))
