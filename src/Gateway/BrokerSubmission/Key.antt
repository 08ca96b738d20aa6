-- ===== src/Gateway/BrokerSubmission/Key.antt =====
-- The idempotency key names one decision to submit.
use Prim.Native.String.{String}
use text.Mathlib.TextLemmas.{append_inj, append_cancel_left}
use Prim.Native.String.{count as text_length}
use hermes_personal_options.Common.{ℕ, ◌≡◌, ◌↔◌, sym, ◌∙◌, ap, true, ==_iff, eq_iff, arith}
use hermes_personal_options.Common.Text.{show_ℕ, show_ℕ-injective}
use hermes_personal_options.Schemas.OrderTicket.{OrderTicket}
use hermes_personal_options.Schemas.BrokerSubmission.{
  BrokerSubmitIntent, submit_intent_valid, key_of,
}

key_of-injective :
    (h k : String) (m n : ℕ)
    → text_length h ≡ text_length k
    → key_of h m ≡ key_of k n
    → (h ≡ k) × (m ≡ n)
key_of-injective h k m n same_length same =
    let (hash, rest) = append_inj same same_length in
    (hash, show_ℕ-injective m n (append_cancel_left ":" (show_ℕ m) (show_ℕ n) rest))

module _ (ticket_digest : OrderTicket → String) where
  -- The key of an intent is that of its digest and counter, and the digest has 64 characters.
  keyed :
      (i : BrokerSubmitIntent)
      → submit_intent_valid ticket_digest i ≡ true
      → (i.idempotency_key ≡ key_of i.order_ticket_hash i.attempt_counter)
        × (text_length i.order_ticket_hash ≡ 64)
  unfolding submit_intent_valid
  keyed i valid = (
    (eq_iff _ _).0 (ground arith),
    (==_iff (text_length i.order_ticket_hash) 64).0 (ground arith),
  )

  -- Two valid submissions have one idempotency key exactly if the digests of their tickets and
  -- their attempt counters are equal.
  pub idempotency_key-injective :
      (i j : BrokerSubmitIntent)
      → submit_intent_valid ticket_digest i ≡ true
      → submit_intent_valid ticket_digest j ≡ true
      → (i.idempotency_key ≡ j.idempotency_key)
        ↔ ((i.order_ticket_hash ≡ j.order_ticket_hash) × (i.attempt_counter ≡ j.attempt_counter))
  idempotency_key-injective i j vi vj =
      let (key_i, length_i) = keyed i vi in
      let (key_j, length_j) = keyed j vj in
      (
        λ same.
            key_of-injective i.order_ticket_hash j.order_ticket_hash i.attempt_counter
              j.attempt_counter (length_i ∙ sym length_j) (sym key_i ∙ same ∙ key_j),
        λ same.
            key_i
            ∙ ap (λ h. key_of h i.attempt_counter) same.0
            ∙ ap (key_of j.order_ticket_hash) same.1
            ∙ sym key_j,
      )
