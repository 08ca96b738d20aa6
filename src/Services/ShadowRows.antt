-- ===== src/Services/ShadowRows.antt =====
-- services/shadow_cycle.py: the objects that a run stores are of no type that a trade leaves.
use hermes_personal_options.Common.{
  Bool, true, false, Option, List, [], ◌∷◌, ◌++◌, String, ok, err, >>=-eq-ok, >>-eq-ok,
  ok-injective, ◌≡◌, refl, ap, ◌∙◌,
}
use hermes_personal_options.Common.Sort.{select}
use hermes_personal_options.Time.{AwareDateTime}
use hermes_personal_options.Schemas.TradeIntent.{ValidatedTradeIntent}
use hermes_personal_options.Schemas.Audit.{AuditArtifact}
use hermes_personal_options.Schemas.OrderTicket.{OrderTicket}
use hermes_personal_options.Gateway.Request.{GatewayRequest}
use hermes_personal_options.Storage.Models.{
  RecordType, same_type, HermesObject, Codec, StoredEvent, record_type_for,
}
use hermes_personal_options.Storage.Backend.{NewRow}
use hermes_personal_options.Storage.Base.{row_for}

pub select-other :
    (p : StoredEvent → Bool) (xs : List StoredEvent) (e : StoredEvent)
    → p e ≡ false
    → select p (xs ++ e ∷ []) ≡ select p xs
select-other p [] e h = rw h refl
select-other p (x ∷ xs) e h = rw (select-other p xs e h) refl

pub row_for-type :
    (codec : Codec) (obj : HermesObject) (created_at recorded_at : AwareDateTime)
    (key : Option String) (r : NewRow)
    → row_for codec obj created_at recorded_at key ≡ ok r
    → record_type_for obj ≡ ok r.record_type
unfolding row_for
row_for-type codec obj created_at recorded_at key r h =
    let (t, typed, rest) = >>=-eq-ok (record_type_for obj) _ h in
    let (reserved, rest') = >>-eq-ok _ _ rest in
    let (clean, row) = >>-eq-ok _ _ rest' in
    typed ∙ ap (λ (x : NewRow). ok x.record_type) (ok-injective row)

-- An object that the store keeps under the given type.
abbrev pub is_kept_as : RecordType → HermesObject → Bool
is_kept_as t obj = elim (record_type_for obj) [ ok u ↦ same_type u t | err e ↦ false ]

-- The types of what a trade leaves.
abbrev pub is_traded : RecordType → Bool
is_traded RecordType.broker_submit_intent = true
is_traded RecordType.execution_report = true
is_traded _ = false

pub traded-artifact :
    (t : RecordType) (artifact : AuditArtifact)
    → is_traded t ≡ true
    → is_kept_as t (HermesObject.audit_artifact artifact) ≡ false
unfolding record_type_for
traded-artifact RecordType.broker_submit_intent artifact h = refl
traded-artifact RecordType.execution_report artifact h = refl
traded-artifact _ artifact h = absurd (cc h)

pub traded-ticket :
    (t : RecordType) (ticket : OrderTicket)
    → is_traded t ≡ true
    → is_kept_as t (HermesObject.order_ticket ticket) ≡ false
unfolding record_type_for
traded-ticket RecordType.broker_submit_intent ticket h = refl
traded-ticket RecordType.execution_report ticket h = refl
traded-ticket _ ticket h = absurd (cc h)

pub traded-validated :
    (t : RecordType) (validated : ValidatedTradeIntent)
    → is_traded t ≡ true
    → is_kept_as t (HermesObject.validated_trade_intent validated) ≡ false
unfolding record_type_for
traded-validated RecordType.broker_submit_intent validated h = refl
traded-validated RecordType.execution_report validated h = refl
traded-validated _ validated h = absurd (cc h)

pub traded-request :
    (t : RecordType) (request : GatewayRequest)
    → is_traded t ≡ true
    → is_kept_as t (HermesObject.gateway_request request) ≡ false
unfolding record_type_for
traded-request RecordType.broker_submit_intent request h = refl
traded-request RecordType.execution_report request h = refl
traded-request _ request h = absurd (cc h)
