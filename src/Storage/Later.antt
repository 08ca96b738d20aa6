-- ===== src/Storage/Later.antt =====
-- The rows that the store ever holds: the invariant, and that rows stay where they are.
use hermes_personal_options.Common.{
  ℕ, suc, ◌≡◌, refl, sym, ap, ◌∙◌, Bool, true, false, not, ◌&&◌, ◌||◌, Option, none, some, List, [],
  ◌∷◌, ◌++◌, String, Result, ok, err, ok-injective, >>=-eq-ok, >>-eq-ok, raise_if-eq-ok, str_eq,
  eq_iff, is_absent, length, all, arith, Bool-cases, inl, inr, ◌⊎◌,
}
use hermes_personal_options.Time.{AwareDateTime}
use hermes_personal_options.Storage.Json.{has_secret}
use hermes_personal_options.Storage.Models.{
  StorageError, RecordType, same_type, HermesObject, Codec, StoredEvent, record_type_for,
}
use hermes_personal_options.Storage.Backend.{
  NewRow, event_of, key_taken, Backend, IsLawful, find, numbered, carries,
}
use hermes_personal_options.Storage.Base.{assert_no_secrets, row_for, put_row, append}
use hermes_personal_options.Storage.Rows.{
  counts_from, counts_from-append, keys_distinct, keys_distinct-append, all-append_row, find-append,
}

module _ (codec : Codec) where
  open codec use {model_dump_json, sha256, loads}

  -- A payload that can be read, and in which no field is named like a secret.
  abbrev pub secret_free : String → Bool
  secret_free payload = elim (loads payload) [ none ↦ false | some j ↦ not (has_secret j) ]

  -- What a row keeps: the digest of its payload, no secret, and a key only for a submission.
  abbrev pub row_sound : StoredEvent → Bool
  row_sound e =
      str_eq (sha256 e.payload_json) e.payload_sha256
      && secret_free e.payload_json
      && (is_absent e.idempotency_key || same_type e.record_type RecordType.broker_submit_intent)

  abbrev pub well_formed : List StoredEvent → Bool
  well_formed rows = counts_from 1 rows && all row_sound rows && keys_distinct rows

  no_secrets-free :
      (payload : String) → assert_no_secrets codec payload ≡ ok tt → secret_free payload ≡ true
  unfolding assert_no_secrets
  no_secrets-free payload h = ground arith

  -- The row that is stored for an object is sound.
  pub row_for_sound :
      (obj : HermesObject) (created_at recorded_at : AwareDateTime) (key : Option String)
      (r : NewRow) (seq : ℕ)
      → row_for codec obj created_at recorded_at key ≡ ok r
      → row_sound (event_of seq r) ≡ true
  unfolding row_for
  row_for_sound obj created_at recorded_at key r seq h =
      let (t, typed, rest) = >>=-eq-ok (record_type_for obj) _ h in
      let (reserved, rest') = >>-eq-ok _ _ rest in
      let (clean, row) = >>-eq-ok _ _ rest' in
      let same = ok-injective row in
      let free = no_secrets-free (model_dump_json obj) clean in
      let kept = raise_if-eq-ok _ _ reserved in
      rw (← same) (
        ground
          (arith, (eq_iff (sha256 (model_dump_json obj)) (sha256 (model_dump_json obj))).1 refl))

  module _ (B : Backend) (L : IsLawful B) where
    -- An operation that puts a row changes nothing, or adds the row at the end.
    pub put_row-cases :
        (s : B.State) (m : Result StorageError NewRow)
        → ((put_row codec B s m).1 ≡ s)
          ⊎ ((r : NewRow) × (m ≡ ok r)
              × (key_taken (B.iter_events s) r.idempotency_key ≡ false)
              × (B.iter_events (put_row codec B s m).1
                  ≡ B.iter_events s ++ event_of (suc (length (B.iter_events s))) r ∷ []))
    put_row-cases s (err e) = inl refl
    put_row-cases s (ok r) = elim (Bool-cases (key_taken (B.iter_events s) r.idempotency_key)) [
      | inl taken ↦
          inl (ap (λ (p : Result StorageError ℕ × B.State). p.1) (L.insert-taken s r taken))
      | inr fresh ↦ inr (r, refl, fresh, L.insert-rows s r fresh)
    ]

    -- The states that a run of appends, accepted or refused, leads to; a submit attempt is an append.
    pub data Later (s : B.State) : B.State → Type 0 where
      now : Later s s
      appending :
          {mid after : B.State} (obj : HermesObject) (created_at recorded_at : AwareDateTime)
          (key : Option String)
          → Later s mid
          → (append codec B mid obj created_at recorded_at key).1 ≡ after
          → Later s after

    append-well_formed :
        (s : B.State) (obj : HermesObject) (created_at recorded_at : AwareDateTime)
        (key : Option String)
        → well_formed (B.iter_events s) ≡ true
        → well_formed (B.iter_events (append codec B s obj created_at recorded_at key).1) ≡ true
    unfolding append
    append-well_formed s obj created_at recorded_at key h =
        elim (put_row-cases s (row_for codec obj created_at recorded_at key)) [
          | inl same ↦ ap (λ x. well_formed (B.iter_events x)) same ∙ h
          | inr (r, made, fresh, rows) ↦
              let n = suc (length (B.iter_events s)) in
              let e = event_of n r in
              let counted = counts_from-append 1 (B.iter_events s) e (ground arith) (omega arith) in
              let sound =
                all-append_row row_sound (B.iter_events s) e (ground arith)
                  (row_for_sound obj created_at recorded_at key r n made) in
              let distinct = keys_distinct-append (B.iter_events s) e (ground arith) fresh in
              ap well_formed rows ∙ ground (arith, counted, sound, distinct)
        ]

    -- In every state that appends lead to from the empty store, the rows are numbered from 1 in their
    -- order, each row has the digest of its payload and no field named like a secret, only submissions
    -- have keys, and no two rows have one key.
    pub Later-well_formed :
        (s : B.State) {after : B.State}
        → B.iter_events s ≡ []
        → Later s after
        → well_formed (B.iter_events after) ≡ true
    Later-well_formed s empty now = ap well_formed empty
    Later-well_formed s empty (appending {mid} obj created_at recorded_at key run same) =
        ap (λ x. well_formed (B.iter_events x)) (sym same)
        ∙ append-well_formed mid obj created_at recorded_at key (Later-well_formed s empty run)

    append-find :
        (p : StoredEvent → Bool) (s : B.State) (obj : HermesObject)
        (created_at recorded_at : AwareDateTime) (key : Option String) (e : StoredEvent)
        → find p (B.iter_events s) ≡ some e
        → find p (B.iter_events (append codec B s obj created_at recorded_at key).1) ≡ some e
    unfolding append
    append-find p s obj created_at recorded_at key e h =
        elim (put_row-cases s (row_for codec obj created_at recorded_at key)) [
          | inl same ↦ ap (λ x. find p (B.iter_events x)) same ∙ h
          | inr (r, made, fresh, rows) ↦
              ap (find p) rows
              ∙ find-append p (B.iter_events s) (event_of (suc (length (B.iter_events s))) r ∷ []) h
        ]

    -- A row that is found once is found in every later state.
    pub Later-find :
        (p : StoredEvent → Bool) (s : B.State) (e : StoredEvent) {after : B.State}
        → Later s after
        → find p (B.iter_events s) ≡ some e
        → find p (B.iter_events after) ≡ some e
    Later-find p s e now h = h
    Later-find p s e (appending {mid} obj created_at recorded_at key run same) h =
        ap (λ x. find p (B.iter_events x)) (sym same)
        ∙ append-find p mid obj created_at recorded_at key e (Later-find p s e run h)

    -- What a lookup by number or by key finds, it finds unchanged after any further appends, accepted
    -- or refused.
    pub Later-keeps :
        (s : B.State) {after : B.State}
        → Later s after
        → ((n : ℕ) (e : StoredEvent) → B.get_by_seq s n ≡ some e → B.get_by_seq after n ≡ some e)
          × ((k : String) (e : StoredEvent)
              → B.get_by_idempotency_key s k ≡ some e
              → B.get_by_idempotency_key after k ≡ some e)
    Later-keeps s {after} run = (
      λ n e h.
          L.get_by_seq-find after n
          ∙ Later-find (numbered n) s e run (sym (L.get_by_seq-find s n) ∙ h),
      λ k e h.
          L.get_by_idempotency_key-find after k
          ∙ Later-find (carries k) s e run (sym (L.get_by_idempotency_key-find s k) ∙ h),
    )
