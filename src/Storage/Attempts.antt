-- ===== src/Storage/Attempts.antt =====
-- A submission is recorded once.
use hermes_personal_options.Common.{
  ℕ, suc, ◌≡◌, refl, sym, ap, ◌∙◌, Bool, true, false, Option, some, [], ◌∷◌, ◌++◌, String, Result,
  ok, err, is_ok, ok-injective, >>=-eq-ok, >>-eq-ok, eq_iff, length, any, Bool-cases, inl, inr,
  if◌then◌else◌,
}
use hermes_personal_options.Time.{AwareDateTime}
use hermes_personal_options.Schemas.BrokerSubmission.{BrokerSubmitIntent}
use hermes_personal_options.Storage.Models.{
  StorageError, duplicate_idempotency_key, HermesObject, broker_submit_intent, Codec, StoredEvent,
  stored_event_valid, record_type_for,
}
use hermes_personal_options.Storage.Backend.{
  NewRow, event_of, key_taken, has_key, carries, find, Backend, IsLawful,
}
use hermes_personal_options.Storage.Base.{row_for, returned, put_row, append, record_submit_attempt}
use hermes_personal_options.Storage.Rows.{find-append_fresh, find-any}
use hermes_personal_options.Storage.Later.{Later, Later-find}

module _ (codec : Codec) where
  -- The row of an object has the key that it is given.
  row_for-key :
      (obj : HermesObject) (created_at recorded_at : AwareDateTime) (key : Option String)
      (r : NewRow)
      → row_for codec obj created_at recorded_at key ≡ ok r
      → r.idempotency_key ≡ key
  unfolding row_for
  row_for-key obj created_at recorded_at key r h =
      let (t, typed, rest) = >>=-eq-ok (record_type_for obj) _ h in
      let (reserved, rest') = >>-eq-ok _ _ rest in
      let (clean, row) = >>-eq-ok _ _ rest' in
      ap (λ (x : NewRow). x.idempotency_key) (sym (ok-injective row))

  checked_ok :
      (valid : Bool) (a e : StoredEvent) (f : StorageError)
      → ◌≡◌ {A = Result StorageError StoredEvent} (if valid then ok a else err f) (ok e)
      → a ≡ e
  checked_ok true a e f h = ok-injective h
  checked_ok false a e f h = absurd (cc h)

  returned-ok :
      (r : NewRow) (m : Result StorageError ℕ) (e : StoredEvent)
      → returned codec r m ≡ ok e
      → (n : ℕ) × (m ≡ ok n) × (event_of n r ≡ e)
  returned-ok r (err f) e h = absurd (cc h)
  returned-ok r (ok n) e h =
      (n, refl, checked_ok (stored_event_valid (event_of n r)) (event_of n r) e _ h)

  module _ (B : Backend) (L : IsLawful B) where
    -- A put that answers has added the row that it answers with.
    pub put_row-ok :
        (s : B.State) (m : Result StorageError NewRow) (e : StoredEvent) (after : B.State)
        → put_row codec B s m ≡ (ok e, after)
        → (r : NewRow) × (m ≡ ok r)
          × (key_taken (B.iter_events s) r.idempotency_key ≡ false)
          × (event_of (suc (length (B.iter_events s))) r ≡ e)
          × (B.iter_events after ≡ B.iter_events s ++ e ∷ [])
    put_row-ok s (err f) e after h = absurd (cc h)
    put_row-ok s (ok r) e after h =
        let answer : returned codec r (B.insert s r).0 ≡ ok e = ap (λ p. p.0) h in
        let moved : (B.insert s r).1 ≡ after = ap (λ p. p.1) h in
        let (n, inserted, made) = returned-ok r (B.insert s r).0 e answer in
        elim (Bool-cases (key_taken (B.iter_events s) r.idempotency_key)) [
          | inl taken ↦
              let refused : (B.insert s r).0 ≡ err duplicate_idempotency_key =
                ap (λ p. p.0) (L.insert-taken s r taken) in
              absurd (cc (refused, inserted))
          | inr fresh ↦
              let next : n ≡ suc (length (B.iter_events s)) =
                ok-injective (sym inserted ∙ L.insert-number s r fresh) in
              let event = ap (λ k. event_of k r) (sym next) ∙ made in
              (
                r,
                refl,
                fresh,
                event,
                ap B.iter_events (sym moved)
                    ∙ L.insert-rows s r fresh
                    ∙ ap (λ x. B.iter_events s ++ x ∷ []) event,
              )
        ]

    -- A row for a key that is taken is not put.
    put_row-taken :
        (s : B.State) (m : Result StorageError NewRow)
        → ((r : NewRow) → m ≡ ok r → key_taken (B.iter_events s) r.idempotency_key ≡ true)
        → ((put_row codec B s m).1 ≡ s) × (is_ok (put_row codec B s m).0 ≡ false)
    put_row-taken s (err f) h = (refl, refl)
    put_row-taken s (ok r) h =
        let refused = L.insert-taken s r (h r refl) in
        (
          ap (λ p. p.1) refused,
          ap (λ (p : Result StorageError ℕ × B.State). is_ok (returned codec r p.0)) refused,
        )

    -- A submit attempt that is recorded is the one that its key gives back in every later state, and
    -- there every attempt with that key is refused and changes nothing.
    pub record_submit_attempt-once :
        (s mid : B.State) {after : B.State} (i j : BrokerSubmitIntent) (first again : AwareDateTime)
        (e : StoredEvent)
        → record_submit_attempt codec B s i first ≡ (ok e, mid)
        → Later codec B L mid after
        → j.idempotency_key ≡ i.idempotency_key
        → (B.get_by_idempotency_key after i.idempotency_key ≡ some e)
          × ((record_submit_attempt codec B after j again).1 ≡ after)
          × (is_ok (record_submit_attempt codec B after j again).0 ≡ false)
    unfolding record_submit_attempt append
    record_submit_attempt-once s mid {after} i j first again e recorded run same =
        let (r, made, fresh, event, rows) = put_row-ok s _ e mid recorded in
        let keyed = row_for-key _ _ _ _ r made in
        let fresh_key : any (carries i.idempotency_key) (B.iter_events s) ≡ false =
          ap (key_taken (B.iter_events s)) (sym keyed) ∙ fresh in
        let own : carries i.idempotency_key e ≡ true =
          ap (carries i.idempotency_key) (sym event)
          ∙ ap (has_key i.idempotency_key) keyed
          ∙ (eq_iff i.idempotency_key i.idempotency_key).1 refl in
        let found : find (carries i.idempotency_key) (B.iter_events mid) ≡ some e =
          ap (find (carries i.idempotency_key)) rows
          ∙ find-append_fresh (carries i.idempotency_key) (B.iter_events s) e fresh_key own in
        let kept = Later-find codec B L (carries i.idempotency_key) mid e run found in
        let taken : key_taken (B.iter_events after) (some j.idempotency_key) ≡ true =
          ap (λ k. key_taken (B.iter_events after) (some k)) same
          ∙ find-any (carries i.idempotency_key) (B.iter_events after) kept in
        let (unmoved, refused) =
          put_row-taken after
            (row_for codec (broker_submit_intent j) j.submitted_at again (some j.idempotency_key))
            (λ r' made'.
              ap (key_taken (B.iter_events after)) (row_for-key _ _ _ _ r' made') ∙ taken) in
        (L.get_by_idempotency_key-find after i.idempotency_key ∙ kept, unmoved, refused)
