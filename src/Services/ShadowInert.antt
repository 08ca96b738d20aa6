-- ===== src/Services/ShadowInert.antt =====
-- services/shadow_cycle.py: a run leaves no submission, no report and no order.
use hermes_personal_options.Common.{
  ℕ, suc, Bool, true, false, Option, none, some, List, [], ◌∷◌, String, Result, ok, err, length,
  ◌≡◌, refl, ap, sym, ◌∙◌, Bool-cases, inl, inr,
}
use hermes_personal_options.Common.Sort.{select}
use hermes_personal_options.Time.{AwareDateTime}
use hermes_personal_options.Schemas.TradeIntent.{ValidatedTradeIntent}
use hermes_personal_options.Schemas.Audit.{AuditArtifact}
use hermes_personal_options.Schemas.Enums.{ReasonCode}
use hermes_personal_options.Gateway.Request.{GatewayRequest}
use hermes_personal_options.Gateway.OrderRouting.{OrderRoutingState}
use hermes_personal_options.Storage.Models.{StorageError, RecordType, same_type, HermesObject}
use hermes_personal_options.Storage.Backend.{Backend, IsLawful, event_of, of_type}
use hermes_personal_options.Storage.Base.{append, row_for, findings, unresolved_open_orders}
use hermes_personal_options.Storage.Later.{put_row-cases}
use hermes_personal_options.Config.{AppConfig}
use hermes_personal_options.Services.Steps.{
  unsafe_config, Memory, Keeps, >>=-Keeps, >>-Keeps, give-Keeps, raise-Keeps, call-Keeps, raise,
}
use hermes_personal_options.Services.Paper.{Outside}
use hermes_personal_options.Services.PaperCycle.{audit, audit_artifact}
use hermes_personal_options.Services.Accounts.{noted-store}
use hermes_personal_options.Services.Shadow.{
  ShadowCounters, is_shadow_safe, audit_shadow_start, dry_run, shadow_decided, shadow_all,
  shadow_summary, shadow_safe, run_shadow_cycle,
}
use hermes_personal_options.Services.ShadowRows.{
  select-other, row_for-type, is_kept_as, is_traded, traded-artifact, traded-ticket,
  traded-validated, traded-request,
}

module _ (outside : Outside) (B : Backend) (L : IsLawful B) (recorded_at : AwareDateTime)
    (clock : ℕ → AwareDateTime) (before : Memory B.State) where
  open outside use {codec}

  -- The rows of that type, and the orders, are those of before.
  abbrev Untouched : RecordType → Memory B.State → Type 0
  Untouched t m =
      (m.broker ≡ before.broker)
      × (select (of_type t) (B.iter_events m.store)
          ≡ select (of_type t) (B.iter_events before.store))

  module _ (t : RecordType) where
    append-select :
        (s : B.State) (obj : HermesObject) (created_at : AwareDateTime)
        → is_kept_as t obj ≡ false
        → select (of_type t) (B.iter_events (append codec B s obj created_at recorded_at none).1)
          ≡ select (of_type t) (B.iter_events s)
    unfolding append
    append-select s obj created_at other =
        elim (put_row-cases codec B L s (row_for codec obj created_at recorded_at none)) [
          | inl same ↦ ap (λ x. select (of_type t) (B.iter_events x)) same
          | inr (r, made, fresh, rows) ↦
              let typed = row_for-type codec obj created_at recorded_at none r made in
              ap (select (of_type t)) rows
              ∙ select-other (of_type t) (B.iter_events s)
                  (event_of (suc (length (B.iter_events s))) r)
                  (ap
                      (λ (x : Result StorageError RecordType). elim x [
                        | ok u ↦ same_type u t
                        | err e ↦ false
                      ])
                      (sym typed)
                    ∙ other)
        ]

    audit-Untouched :
        (obj : HermesObject) (created_at : AwareDateTime)
        → is_kept_as t obj ≡ false
        → Keeps (Untouched t) (audit outside B recorded_at obj created_at)
    unfolding audit
    audit-Untouched obj created_at other m h =
        let (store, same) =
          noted-store m (append codec B m.store obj created_at recorded_at none) in
        (
          same ∙ h.0,
          ap (λ s. select (of_type t) (B.iter_events s)) store
              ∙ append-select m.store obj created_at other
              ∙ h.1,
        )

    module _ (traded : is_traded t ≡ true) where
      artifact-Untouched :
          (artifact_id decision : String) (reason_codes : List ReasonCode) (detail : String)
          → Keeps
              (Untouched t)
              (audit_artifact outside B recorded_at artifact_id decision reason_codes detail)
      unfolding audit_artifact
      artifact-Untouched artifact_id decision reason_codes detail =
          >>=-Keeps (Untouched t) _ _ (call-Keeps (Untouched t) _ _)
            (λ artifact. audit-Untouched _ _ (traded-artifact t artifact traded))

      dry_run-Untouched :
          (ticketing : Bool) (routing : Option OrderRoutingState) (validated : ValidatedTradeIntent)
          (as_of : AwareDateTime) (ordinal : ℕ) (counters : ShadowCounters)
          → Keeps (Untouched t) (
              dry_run outside B recorded_at clock ticketing routing validated as_of ordinal
                counters)
      unfolding dry_run
      dry_run-Untouched true (some routing) validated as_of ordinal counters =
          >>=-Keeps (Untouched t) _ _ (call-Keeps (Untouched t) _ _) (λ ticket.
            >>-Keeps (Untouched t) _ _ (audit-Untouched _ _ (traded-ticket t ticket traded))
              (give-Keeps (Untouched t) _))
      dry_run-Untouched true none validated as_of ordinal counters =
          give-Keeps (Untouched t) counters
      dry_run-Untouched false routing validated as_of ordinal counters =
          give-Keeps (Untouched t) counters

      module _ (ticketing : Bool) (routing : Option OrderRoutingState) where
        shadow_decided-Untouched :
            (request : GatewayRequest) (ordinal : ℕ) (counters : ShadowCounters)
            (approved : Option ValidatedTradeIntent) (rejection : Option AuditArtifact)
            → Keeps (Untouched t) (
                shadow_decided outside B recorded_at clock ticketing routing request ordinal
                  counters approved rejection)
        unfolding shadow_decided
        shadow_decided-Untouched request ordinal counters none none = raise-Keeps _ (Untouched t) _
        shadow_decided-Untouched request ordinal counters none (some rejection) =
            >>-Keeps (Untouched t) _ _ (audit-Untouched _ _ (traded-artifact t rejection traded))
              (give-Keeps (Untouched t) _)
        shadow_decided-Untouched request ordinal counters (some validated) rejection =
            >>-Keeps (Untouched t) _ _ (audit-Untouched _ _ (traded-validated t validated traded))
              (dry_run-Untouched ticketing routing validated request.as_of ordinal counters)

        shadow_all-Untouched :
            (requests : List GatewayRequest) (ordinal : ℕ) (counters : ShadowCounters)
            → Keeps
                (Untouched t)
                (shadow_all outside B recorded_at clock ticketing routing requests ordinal counters)
        unfolding shadow_all
        shadow_all-Untouched [] ordinal counters = give-Keeps (Untouched t) counters
        shadow_all-Untouched (request ∷ requests) ordinal counters =
            >>-Keeps (Untouched t) _ _ (audit-Untouched _ _ (traded-request t request traded)) (
              >>=-Keeps (Untouched t) _ _ (call-Keeps (Untouched t) _ _) (λ decision.
                >>=-Keeps (Untouched t) _ _
                  (shadow_decided-Untouched request ordinal counters decision.approved
                    decision.rejection)
                  (shadow_all-Untouched requests (suc ordinal))))

      shadow_safe-Untouched :
          (config : AppConfig) (requests : List GatewayRequest) (routing : Option OrderRoutingState)
          → Keeps (Untouched t) (shadow_safe outside B recorded_at clock config requests routing)
      unfolding shadow_safe audit_shadow_start shadow_summary
      shadow_safe-Untouched config requests routing =
          >>-Keeps (Untouched t) _ _ (artifact-Untouched _ _ _ _) (
            >>=-Keeps (Untouched t) _ _
              (shadow_all-Untouched config.order_ticketing_enabled routing requests 0 _)
              (λ counters m h. h))

      run-Untouched :
          (config : AppConfig) (requests : List GatewayRequest) (routing : Option OrderRoutingState)
          → Untouched t
              (run_shadow_cycle outside B recorded_at clock config requests routing before).1
      unfolding run_shadow_cycle raise
      run-Untouched config requests routing = elim (Bool-cases (is_shadow_safe config)) [
        | inl safe ↦ rw safe (
            shadow_safe-Untouched config requests routing (record before { record_ids = [] })
              (refl, refl))
        | inr refused ↦ rw refused (refl, refl)
      ]

      run-iter_events_of :
          (config : AppConfig) (requests : List GatewayRequest) (routing : Option OrderRoutingState)
          → B.iter_events_of
              (run_shadow_cycle outside B recorded_at clock config requests routing before).1.store
              t
            ≡ B.iter_events_of before.store t
      run-iter_events_of config requests routing =
          L.iter_events_of-select _ t
          ∙ (run-Untouched config requests routing).1
          ∙ sym (L.iter_events_of-select before.store t)

  -- A shadow cycle, whether it answers or raises, leaves the broker as it is, adds no submission and no
  -- report to the store, and so leaves the open orders that a restart finds; and an unsafe configuration
  -- changes nothing.
  pub run_shadow_cycle-Inert :
      (config : AppConfig) (requests : List GatewayRequest) (routing : Option OrderRoutingState)
      → ((run_shadow_cycle outside B recorded_at clock config requests routing before).1.broker
          ≡ before.broker)
        × (B.iter_events_of
              (run_shadow_cycle outside B recorded_at clock config requests routing before).1.store
              RecordType.broker_submit_intent
            ≡ B.iter_events_of before.store RecordType.broker_submit_intent)
        × (B.iter_events_of
              (run_shadow_cycle outside B recorded_at clock config requests routing before).1.store
              RecordType.execution_report
            ≡ B.iter_events_of before.store RecordType.execution_report)
        × (unresolved_open_orders codec B
              (run_shadow_cycle outside B recorded_at clock config requests routing before).1.store
            ≡ unresolved_open_orders codec B before.store)
        × (is_shadow_safe config ≡ false
            → run_shadow_cycle outside B recorded_at clock config requests routing before
              ≡ (err unsafe_config, before))
  unfolding run_shadow_cycle raise unresolved_open_orders
  run_shadow_cycle-Inert config requests routing =
      let after =
        (run_shadow_cycle outside B recorded_at clock config requests routing before).1.store in
      let submissions =
        run-iter_events_of RecordType.broker_submit_intent refl config requests routing in
      let reports = run-iter_events_of RecordType.execution_report refl config requests routing in
      (
        (run-Untouched RecordType.execution_report refl config requests routing).0,
        submissions,
        reports,
        ap (λ r. findings codec r (B.iter_events_of after RecordType.broker_submit_intent)) reports
            ∙ ap (findings codec (B.iter_events_of before.store RecordType.execution_report))
                submissions,
        λ refused. rw refused refl,
      )
