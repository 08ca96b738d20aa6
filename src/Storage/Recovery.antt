-- ===== src/Storage/Recovery.antt =====
-- The recovery after a restart: which submit attempts are open.
use mathlib.Core.Path.{subst}
use hermes_personal_options.Common.{
  ℕ, ◌≡◌, refl, sym, ap, ◌∙◌, Bool, true, false, ◌||◌, Option, none, some, List, [], ◌∷◌, ◌++◌,
  String, ok, ok-injective, >>=-eq-ok, str_eq, ◌==◌, ==_iff, any, any-append, arith, Bool-cases,
  inl, inr, ◌⊎◌, All, if◌then◌else◌,
}
use hermes_personal_options.Common.Sort.{All-map}
use hermes_personal_options.Schemas.Enums.{OrderLifecycleState}
use hermes_personal_options.Storage.Models.{
  RecordType, Codec, StoredEvent, OpenOrderRecovery, is_non_terminal,
}
use hermes_personal_options.Storage.Backend.{Backend}
use hermes_personal_options.Storage.Base.{
  latest_of, lifecycle_from_payload, finding, findings, unreported, still_open,
  unresolved_open_orders,
}

-- The report is about that key.
abbrev pub reports_on : String → StoredEvent → Bool
reports_on key e = str_eq e.record_id key

latest_of-append :
    (key : String) (found : Option StoredEvent) (xs ys : List StoredEvent)
    → latest_of key found (xs ++ ys) ≡ latest_of key (latest_of key found xs) ys
latest_of-append key found [] ys = refl
latest_of-append key found (x ∷ xs) ys =
    latest_of-append key (if reports_on key x then some x else found) xs ys

latest_of_silent :
    (key : String) (found : Option StoredEvent) (xs : List StoredEvent)
    → any (reports_on key) xs ≡ false
    → latest_of key found xs ≡ found
latest_of_silent key found [] h = refl
latest_of_silent key found (x ∷ xs) h =
    let other : reports_on key x ≡ false = ground arith in
    let later : any (reports_on key) xs ≡ false = ground arith in
    ap (λ b. latest_of key (if b then some x else found) xs) other
    ∙ latest_of_silent key found xs later

-- Where the last report is: it is about the key, and none behind it is.
abbrev LastReport : String → List StoredEvent → StoredEvent → Type 0
LastReport key reports r =
    (before : List StoredEvent) × (after : List StoredEvent) × (reports ≡ before ++ r ∷ after)
    × (reports_on key r ≡ true)
    × (any (reports_on key) after ≡ false)

LastReport-cons :
    (key : String) (x : StoredEvent) (xs : List StoredEvent) (r : StoredEvent)
    → LastReport key xs r
    → LastReport key (x ∷ xs) r
LastReport-cons key x xs r (before, after, split, own, silent) =
    (x ∷ before, after, ap (λ t. x ∷ t) split, own, silent)

latest_of-LastReport :
    (key : String) (reports : List StoredEvent) (r : StoredEvent)
    → LastReport key reports r
    → latest_of key none reports ≡ some r
latest_of-LastReport key reports r (before, after, split, own, silent) =
    ap (latest_of key none) split
    ∙ latest_of-append key none before (r ∷ after)
    ∙ ap (λ b. latest_of key (if b then some r else latest_of key none before) after) own
    ∙ latest_of_silent key (some r) after silent

-- What the walk ends with is the last report, or what it began with.
latest_of-cases :
    (key : String) (found : Option StoredEvent) (reports : List StoredEvent) (r : StoredEvent)
    → latest_of key found reports ≡ some r
    → LastReport key reports r ⊎ (found ≡ some r) × (any (reports_on key) reports ≡ false)
latest_of-cases key found [] r h = inr (h, refl)
latest_of-cases key found (x ∷ xs) r h = elim (Bool-cases (reports_on key x)) [
  | inl own ↦
      let shorter : latest_of key (some x) xs ≡ some r =
        ap (λ b. latest_of key (if b then some x else found) xs) (sym own) ∙ h in
      elim (latest_of-cases key (some x) xs r shorter) [
        | inl last ↦ inl (LastReport-cons key x xs r last)
        | inr (same, silent) ↦
            let last : x ≡ r = cc same in
            inl ([], xs, ap (λ t. t ∷ xs) last, ap (reports_on key) (sym last) ∙ own, silent)
      ]
  | inr other ↦
      let shorter : latest_of key found xs ≡ some r =
        ap (λ b. latest_of key (if b then some x else found) xs) (sym other) ∙ h in
      elim (latest_of-cases key found xs r shorter) [
        | inl last ↦ inl (LastReport-cons key x xs r last)
        | inr (same, silent) ↦ inr (same, ground arith)
      ]
]

some_eq : {A : Type 0} {a b : A} → ◌≡◌ {A = Option A} (some a) (some b) → a ≡ b
some_eq h = cc h

module _ (codec : Codec) where
  -- The last report on the key has a terminal state.
  abbrev pub Settled : String → List StoredEvent → Type 0
  Settled key reports =
      (r : StoredEvent) × (state : OrderLifecycleState) × LastReport key reports r
      × (lifecycle_from_payload codec r.payload_json ≡ ok state)
      × (is_non_terminal state ≡ false)

  abbrev pub listed : ℕ → List OpenOrderRecovery → Bool
  listed seq found = any (λ (f : OpenOrderRecovery). f.submit_event_seq == seq) found

  listed_self :
      (f : OpenOrderRecovery) (found : List OpenOrderRecovery)
      → f ∷ [] ≡ found
      → listed f.submit_event_seq found ≡ true
  listed_self f found same =
      ap (listed f.submit_event_seq) (sym same)
      ∙ ground (arith, (==_iff f.submit_event_seq f.submit_event_seq).1 refl)

  -- One submit attempt: it is found, or its key is settled.
  finding-cases :
      (reports : List StoredEvent) (submit : StoredEvent) (found : List OpenOrderRecovery)
      (o : Option StoredEvent)
      → latest_of submit.record_id none reports ≡ o
      → finding codec submit o ≡ ok found
      → (listed submit.seq found ≡ true) ⊎ Settled submit.record_id reports
  finding-cases reports submit found none last h =
      inl (listed_self (unreported codec submit) found (ok-injective h))
  finding-cases reports submit found (some r) last h =
      let (state, read, made) = >>=-eq-ok (lifecycle_from_payload codec r.payload_json) _ h in
      elim (Bool-cases (is_non_terminal state)) [
        | inl working ↦ inl (
            listed_self (still_open codec submit r state) found (
              ap (λ b. if b then still_open codec submit r state ∷ [] else []) (sym working)
              ∙ ok-injective made))
        | inr done ↦ elim (latest_of-cases submit.record_id none reports r last) [
          | inl at ↦ inr (r, state, at, read, done)
          | inr (absent, silent) ↦ absurd (cc absent)
        ]
      ]

  -- What is found is not settled.
  finding-open :
      (reports : List StoredEvent) (submit : StoredEvent) (found : List OpenOrderRecovery)
      (o : Option StoredEvent)
      → latest_of submit.record_id none reports ≡ o
      → finding codec submit o ≡ ok found
      → All (λ (f : OpenOrderRecovery). ¬ Settled f.logical_key reports) found
  finding-open reports submit found none last h =
      subst (All (λ (f : OpenOrderRecovery). ¬ Settled f.logical_key reports)) (ok-injective h) (
        λ settled.
            let (r, state, at, read, done) = settled in
            absurd (cc (last, latest_of-LastReport submit.record_id reports r at)),
        tt,
      )
  finding-open reports submit found (some r) last h =
      let (state, read, made) = >>=-eq-ok (lifecycle_from_payload codec r.payload_json) _ h in
      elim (Bool-cases (is_non_terminal state)) [
        | inl working ↦
            subst (All (λ (f : OpenOrderRecovery). ¬ Settled f.logical_key reports))
              (ap (λ b. if b then still_open codec submit r state ∷ [] else []) (sym working)
                ∙ ok-injective made)
              (
                λ settled.
                    let (r', state', at, read', done) = settled in
                    let same : r' ≡ r =
                      some_eq (sym (latest_of-LastReport submit.record_id reports r' at) ∙ last) in
                    let agree : state' ≡ state = ok-injective (
                      sym read'
                      ∙ ap (λ (x : StoredEvent). lifecycle_from_payload codec x.payload_json) same
                      ∙ read) in
                    absurd (cc (ap is_non_terminal agree, working, done)),
                tt,
              )
        | inr done ↦
            subst (All (λ (f : OpenOrderRecovery). ¬ Settled f.logical_key reports))
              (ap (λ b. if b then still_open codec submit r state ∷ [] else []) (sym done)
                ∙ ok-injective made)
              tt
      ]

  -- All of both lists.
  both_lists :
      {A : Type 0} (P : A → Type 0) (xs ys : List A) → All P xs → All P ys → All P (xs ++ ys)
  both_lists P [] ys h k = k
  both_lists P (x ∷ xs) ys (first, h) k = (first, both_lists P xs ys h k)

  abbrev Handled : List StoredEvent → List OpenOrderRecovery → StoredEvent → Type 0
  Handled reports found submit = (listed submit.seq found ≡ true) ⊎ Settled submit.record_id reports

  Handled-more :
      (reports : List StoredEvent) (xs ys : List OpenOrderRecovery) (submit : StoredEvent)
      → Handled reports xs submit ⊎ Handled reports ys submit
      → Handled reports (xs ++ ys) submit
  Handled-more reports xs ys submit (inl (inl found)) = inl (
      any-append (λ (f : OpenOrderRecovery). f.submit_event_seq == submit.seq) xs ys
      ∙ ap (λ b. b || listed submit.seq ys) found)
  Handled-more reports xs ys submit (inr (inl found)) = inl (
      any-append (λ (f : OpenOrderRecovery). f.submit_event_seq == submit.seq) xs ys
      ∙ ap (λ b. listed submit.seq xs || b) found
      ∙ ground arith)
  Handled-more reports xs ys submit (inl (inr settled)) = inr settled
  Handled-more reports xs ys submit (inr (inr settled)) = inr settled

  findings-Handled :
      (reports submits : List StoredEvent) (found : List OpenOrderRecovery)
      → findings codec reports submits ≡ ok found
      → All (Handled reports found) submits
        × All (λ (f : OpenOrderRecovery). ¬ Settled f.logical_key reports) found
  findings-Handled reports [] found h = (
    tt,
    subst (All (λ (f : OpenOrderRecovery). ¬ Settled f.logical_key reports)) (ok-injective h) tt,
  )
  findings-Handled reports (submit ∷ submits) found h =
      let (mine, made, rest) =
        >>=-eq-ok (finding codec submit (latest_of submit.record_id none reports)) _ h in
      let (others, made', joined) = >>=-eq-ok (findings codec reports submits) _ rest in
      let (handled, unsettled) = findings-Handled reports submits others made' in
      let both : mine ++ others ≡ found = ok-injective joined in
      let one = finding-cases reports submit mine _ refl made in
      let mine_open = finding-open reports submit mine _ refl made in
      (
        (
          subst (λ x. Handled reports x submit) both
              (Handled-more reports mine others submit (inl one)),
          subst (λ x. All (Handled reports x) submits) both
              (All-map (Handled reports others) (Handled reports (mine ++ others)) submits
                (λ x later. Handled-more reports mine others x (inr later)) handled),
        ),
        subst (All (λ (f : OpenOrderRecovery). ¬ Settled f.logical_key reports)) both (
            both_lists (λ (f : OpenOrderRecovery). ¬ Settled f.logical_key reports) mine others
              mine_open unsettled),
      )

  module _ (B : Backend) where
    -- Where the recovery answers, each submit attempt of the store is listed by its number, or the last
    -- report on its key has a terminal state; and no key that is listed is settled in this sense.
    pub unresolved_open_orders-exact :
        (s : B.State) (found : List OpenOrderRecovery)
        → unresolved_open_orders codec B s ≡ ok found
        → All
            (λ (submit : StoredEvent).
              (listed submit.seq found ≡ true)
              ⊎ Settled submit.record_id (B.iter_events_of s RecordType.execution_report))
            (B.iter_events_of s RecordType.broker_submit_intent)
          × All
              (λ (f : OpenOrderRecovery).
                ¬ Settled f.logical_key (B.iter_events_of s RecordType.execution_report))
              found
    unfolding unresolved_open_orders
    unresolved_open_orders-exact s found h =
        findings-Handled (B.iter_events_of s RecordType.execution_report)
          (B.iter_events_of s RecordType.broker_submit_intent) found h
