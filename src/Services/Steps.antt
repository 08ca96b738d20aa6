-- ===== src/Services/Steps.antt =====
-- services/: code that changes the store, a broker and a list of record ids, and that may raise. What is
-- changed before an exception stays changed.
use hermes_personal_options.Common.{List, String, Result, ok, err, ok-injective, ap, ◌≡◌, refl}
use hermes_personal_options.Gateway.Validate.{GatewayError}
use hermes_personal_options.Gateway.OrderRouting.{TicketError}
use hermes_personal_options.Gateway.BrokerSubmission.{SubmitError}
use hermes_personal_options.Storage.Models.{StorageError}
use hermes_personal_options.Brokers.Base.{Failure}
use hermes_personal_options.Brokers.Fake.{FakeBroker}

-- What ends a cycle.
pub data CycleError : Type 0 where
  unsafe_config no_routing_state assertion invalid_model : CycleError
  storage : StorageError → CycleError
  gateway : GatewayError → CycleError
  ticketing : TicketError → CycleError
  submission : SubmitError → CycleError
  broker : Failure → CycleError

pub record Memory (S : Type 0) : Type 0 where
  pub store : S
  pub broker : FakeBroker
  pub record_ids : List String

abbrev pub Step : Type 0 → Type 0 → Type 0
Step S A = Memory S → Result CycleError A × Memory S

abbrev pub then_run :
    {S A B : Type 0}
    → (A → Step S B)
    → Result CycleError A × Memory S
    → Result CycleError B × Memory S
then_run next (err e, m) = (err e, m)
then_run next (ok a, m) = next a m

infixl 5 ◌>>=◌ ◌>>◌
unfoldable pub ◌>>=◌ : {S A B : Type 0} → Step S A → (A → Step S B) → Step S B
(step >>= next) m = then_run next (step m)

unfoldable pub ◌>>◌ : {S B : Type 0} → Step S (Unit {0}) → Step S B → Step S B
(step >> rest) m = then_run (λ u. rest) (step m)

unfoldable pub give : {S A : Type 0} → A → Step S A
give a m = (ok a, m)

unfoldable pub raise : {S A : Type 0} → CycleError → Step S A
raise e m = (err e, m)

-- A call that changes nothing.
unfoldable pub call : {S E A : Type 0} → (E → CycleError) → Result E A → Step S A
call wrap r m = elim r [ ok a ↦ (ok a, m) | err e ↦ (err (wrap e), m) ]

-- What a run keeps, whether it answers or raises.
abbrev pub Keeps : {S A : Type 0} → (Memory S → Type 0) → Step S A → Type 0
Keeps {S} P step = (m : Memory S) → P m → P (step m).1

then_run-Keeps :
    {S A B : Type 0} (P : Memory S → Type 0) (next : A → Step S B)
    (r : Result CycleError A × Memory S)
    → ((a : A) → Keeps P (next a))
    → P r.1
    → P (then_run next r).1
then_run-Keeps P next (err e, m) each h = h
then_run-Keeps P next (ok a, m) each h = each a m h

pub >>=-Keeps :
    {S A B : Type 0} (P : Memory S → Type 0) (step : Step S A) (next : A → Step S B)
    → Keeps P step
    → ((a : A) → Keeps P (next a))
    → Keeps P (step >>= next)
unfolding ◌>>=◌
>>=-Keeps P step next first each m h = then_run-Keeps P next (step m) each (first m h)

pub >>-Keeps :
    {S B : Type 0} (P : Memory S → Type 0) (step : Step S (Unit {0})) (rest : Step S B)
    → Keeps P step
    → Keeps P rest
    → Keeps P (step >> rest)
unfolding ◌>>◌
>>-Keeps P step rest first later m h =
    then_run-Keeps P (λ u. rest) (step m) (λ u. later) (first m h)

pub give-Keeps : {S A : Type 0} (P : Memory S → Type 0) (a : A) → Keeps P (give {S = S} a)
unfolding give
give-Keeps P a m h = h

pub raise-Keeps :
    {S : Type 0} (A : Type 0) (P : Memory S → Type 0) (e : CycleError)
    → Keeps P (raise {S = S} {A = A} e)
unfolding raise
raise-Keeps A P e m h = h

pub call-Keeps :
    {S E A : Type 0} (P : Memory S → Type 0) (wrap : E → CycleError) (r : Result E A)
    → Keeps P (call {S = S} wrap r)
unfolding call
call-Keeps P wrap (ok a) m h = h
call-Keeps P wrap (err e) m h = h

-- A step whose answer brings a fact of its own for what follows.
then_run-Keeps_with :
    {S A B : Type 0} (P : Memory S → Type 0) (Q : A → Memory S → Type 0) (next : A → Step S B)
    (r : Result CycleError A × Memory S)
    → ((a : A) (m : Memory S) → P m → Q a m → P (next a m).1)
    → P r.1
    → ((a : A) → r.0 ≡ ok a → Q a r.1)
    → P (then_run next r).1
then_run-Keeps_with P Q next (err e, m) each h fact = h
then_run-Keeps_with P Q next (ok a, m) each h fact = each a m h (fact a refl)

pub >>=-Keeps_with :
    {S A B : Type 0} (P : Memory S → Type 0) (Q : A → Memory S → Type 0) (step : Step S A)
    (next : A → Step S B)
    → Keeps P step
    → ((m : Memory S) (a : A) → (step m).0 ≡ ok a → Q a (step m).1)
    → ((a : A) (m : Memory S) → P m → Q a m → P (next a m).1)
    → Keeps P (step >>= next)
unfolding ◌>>=◌
>>=-Keeps_with P Q step next first fact each m h =
    then_run-Keeps_with P Q next (step m) each (first m h) (fact m)

then_run-eq-ok :
    {S A B : Type 0} (next : A → Step S B) (r : Result CycleError A × Memory S) (b : B)
    (after : Memory S)
    → then_run next r ≡ (ok b, after)
    → (a : A) × (r ≡ (ok a, r.1)) × (next a r.1 ≡ (ok b, after))
then_run-eq-ok next (err e, m) b after h = absurd (cc h)
then_run-eq-ok next (ok a, m) b after h = (a, refl, h)

pub >>=-answers :
    {S A B : Type 0} (step : Step S A) (next : A → Step S B) (m : Memory S) (b : B)
    (after : Memory S)
    → (step >>= next) m ≡ (ok b, after)
    → (a : A) × (step m ≡ (ok a, (step m).1)) × (next a (step m).1 ≡ (ok b, after))
unfolding ◌>>=◌
>>=-answers step next m b after h = then_run-eq-ok next (step m) b after h

pub >>-answers :
    {S B : Type 0} (step : Step S (Unit {0})) (rest : Step S B) (m : Memory S) (b : B)
    (after : Memory S)
    → (step >> rest) m ≡ (ok b, after)
    → rest (step m).1 ≡ (ok b, after)
unfolding ◌>>◌
>>-answers step rest m b after h = (then_run-eq-ok (λ u. rest) (step m) b after h).2

-- A first step that keeps P where it starts.
pub >>=-Keeps_from :
    {S A B : Type 0} (P : Memory S → Type 0) (step : Step S A) (next : A → Step S B) (m : Memory S)
    → P (step m).1
    → ((a : A) → Keeps P (next a))
    → P ((step >>= next) m).1
unfolding ◌>>=◌
>>=-Keeps_from P step next m h each = then_run-Keeps P next (step m) each h

pub >>-answers_both :
    {S B : Type 0} (step : Step S (Unit {0})) (rest : Step S B) (m : Memory S) (b : B)
    (after : Memory S)
    → (step >> rest) m ≡ (ok b, after)
    → (u : Unit {0}) × (step m ≡ (ok u, (step m).1)) × (rest (step m).1 ≡ (ok b, after))
unfolding ◌>>◌
>>-answers_both step rest m b after h = then_run-eq-ok (λ u. rest) (step m) b after h

-- A call that answers, and what follows it in the same memory.
pub call-answers :
    {S E A B : Type 0} (wrap : E → CycleError) (r : Result E A) (next : A → Step S B) (m : Memory S)
    (b : B) (after : Memory S)
    → (call wrap r >>= next) m ≡ (ok b, after)
    → (a : A) × (r ≡ ok a) × (next a m ≡ (ok b, after))
unfolding ◌>>=◌ call
call-answers wrap (ok a) next m b after h = (a, refl, h)
call-answers wrap (err e) next m b after h = absurd (cc h)

pub give-answers :
    {S A : Type 0} (a : A) (m : Memory S) (b : A) (after : Memory S)
    → give a m ≡ (ok b, after)
    → (a ≡ b) × (m ≡ after)
unfolding give
give-answers a m b after h = (
  ok-injective (ap (λ (x : Result CycleError _ × Memory _). x.0) h),
  ap (λ (x : Result CycleError _ × Memory _). x.1) h,
)
