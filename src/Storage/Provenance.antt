-- ===== src/Storage/Provenance.antt =====
-- What gives an object back: only a row of the store, and the object that was stored.
use hermes_personal_options.Common.{
  suc, ◌≡◌, refl, sym, ap, ◌∙◌, Bool, true, false, Option, none, some, [], String, Result, ok,
  is_ok, ok-injective, ◌>>◌, >>=-eq-ok, >>-eq-ok, str_eq, eq_iff, length, ==_iff, any, arith,
  Option-cases, inl, inr,
}
use hermes_personal_options.Time.{AwareDateTime}
use hermes_personal_options.Storage.Models.{
  StorageError, RecordType, is_registered, is_gated_record_type, HermesObject, Codec, StoredEvent,
  record_type_for,
}
use hermes_personal_options.Storage.Rehydrate.{rebuild, rehydrate_payload, rehydrate_free}
use hermes_personal_options.Storage.Backend.{NewRow, numbered, find, Backend, IsLawful}
use hermes_personal_options.Storage.Base.{
  same_optional, same_event, row_for, append, assert_provenance, rehydrate,
}
use hermes_personal_options.Storage.Rows.{counts_from, counts_from-fresh, find-append_fresh}
use hermes_personal_options.Storage.Later.{Later, Later-find, Later-well_formed}
use hermes_personal_options.Storage.Attempts.{put_row-ok}

str_eq_refl : (t : String) → str_eq t t ≡ true
str_eq_refl t = (eq_iff t t).1 refl

same_optional_refl : (o : Option String) → same_optional o o ≡ true
same_optional_refl none = refl
same_optional_refl (some t) = str_eq_refl t

-- A row equals itself.
same_event_refl : (e : StoredEvent) → same_event e e ≡ true
unfolding same_event
same_event_refl e = ground (
  arith,
  str_eq_refl e.record_id,
  same_optional_refl e.idempotency_key,
  same_optional_refl e.order_ticket_hash,
  str_eq_refl e.payload_json,
  str_eq_refl e.payload_sha256,
)

module _ (codec : Codec) where
  open codec use {model_dump_json, sha256}

  -- A row whose type is gated gives nothing back without a store, whatever it holds.
  pub rehydrate_free-refuses :
      (e : StoredEvent)
      → is_gated_record_type e.record_type ≡ true
      → is_ok (rehydrate_free codec e) ≡ false
  unfolding rehydrate_free
  rehydrate_free-refuses e gated = rw gated (ground arith)

  rehydrate_payload-eq-ok :
      (e : StoredEvent) (allow_gated : Bool) (obj : HermesObject)
      → rehydrate_payload codec e allow_gated ≡ ok obj
      → (sha256 e.payload_json ≡ e.payload_sha256)
        × (rebuild codec e.record_type e.payload_json ≡ ok obj)
  unfolding rehydrate_payload
  rehydrate_payload-eq-ok e allow_gated obj h =
      ((eq_iff (sha256 e.payload_json) e.payload_sha256).0 (ground arith), ground arith)

  -- A row of a known type with the digest of its payload is rebuilt.
  rehydrate_payload_sound :
      (e : StoredEvent)
      → sha256 e.payload_json ≡ e.payload_sha256
      → is_registered e.record_type ≡ true
      → rehydrate_payload codec e true ≡ rebuild codec e.record_type e.payload_json
  unfolding rehydrate_payload
  rehydrate_payload_sound e digest known =
      ground (arith, (eq_iff (sha256 e.payload_json) e.payload_sha256).1 digest)

  record_type_for-registered :
      (obj : HermesObject) (t : RecordType) → record_type_for obj ≡ ok t → is_registered t ≡ true
  unfolding record_type_for
  record_type_for-registered (HermesObject.gateway_request r) t h = ground arith
  record_type_for-registered _ t h = ground arith

  pub row_for-fields :
      (obj : HermesObject) (created_at recorded_at : AwareDateTime) (key : Option String)
      (r : NewRow)
      → row_for codec obj created_at recorded_at key ≡ ok r
      → (record_type_for obj ≡ ok r.record_type)
        × (model_dump_json obj ≡ r.payload_json)
        × (sha256 (model_dump_json obj) ≡ r.payload_sha256)
  unfolding row_for
  row_for-fields obj created_at recorded_at key r h =
      let (t, typed, rest) = >>=-eq-ok (record_type_for obj) _ h in
      let (reserved, rest') = >>-eq-ok _ _ rest in
      let (clean, row) = >>-eq-ok _ _ rest' in
      let same = ok-injective row in
      (
        typed ∙ ap (λ (x : NewRow). ok x.record_type) same,
        ap (λ (x : NewRow). x.payload_json) same,
        ap (λ (x : NewRow). x.payload_sha256) same,
      )

  module _ (B : Backend) (L : IsLawful B) where
    assert_provenance-ok :
        (s : B.State) (e : StoredEvent)
        → assert_provenance codec B s e ≡ ok tt
        → (stored : StoredEvent) × (B.get_by_seq s e.seq ≡ some stored)
          × (same_event stored e ≡ true)
    unfolding assert_provenance
    assert_provenance-ok s e h = elim (Option-cases (B.get_by_seq s e.seq)) [
      | inl absent ↦ absurd (ground arith)
      | inr (stored, there) ↦ (stored, there, ground arith)
    ]

    assert_provenance-stored :
        (s : B.State) (e : StoredEvent)
        → B.get_by_seq s e.seq ≡ some e
        → assert_provenance codec B s e ≡ ok tt
    unfolding assert_provenance
    assert_provenance-stored s e there = rw (there, assert_provenance) (rw (same_event_refl e) refl)

    -- An object comes back only for a row that the store has: the row of that number equals the given
    -- one in every field, the payload has the digest of the row, and the object is what is rebuilt of
    -- the payload, with its checks.
    pub rehydrate-stored :
        (s : B.State) (e : StoredEvent) (obj : HermesObject)
        → rehydrate codec B s e ≡ ok obj
        → ((stored : StoredEvent) × (B.get_by_seq s e.seq ≡ some stored)
            × (same_event stored e ≡ true))
          × (sha256 e.payload_json ≡ e.payload_sha256)
          × (rebuild codec e.record_type e.payload_json ≡ ok obj)
    unfolding rehydrate
    rehydrate-stored s e obj h =
        let (proven, rest) = >>-eq-ok (assert_provenance codec B s e) _ h in
        let (digest, rebuilt) = rehydrate_payload-eq-ok e true obj rest in
        (assert_provenance-ok s e proven, digest, rebuilt)

    -- An object that is stored in a state that appends lead to comes back from its row in every later
    -- state, if its payload is rebuilt to it.
    pub rehydrate-append :
        (start s mid : B.State) {after : B.State} (obj : HermesObject)
        (created_at recorded_at : AwareDateTime) (key : Option String) (e : StoredEvent)
        → B.iter_events start ≡ []
        → Later codec B L start s
        → append codec B s obj created_at recorded_at key ≡ (ok e, mid)
        → Later codec B L mid after
        → ((t : RecordType)
            → record_type_for obj ≡ ok t
            → rebuild codec t (model_dump_json obj) ≡ ok obj)
        → rehydrate codec B after e ≡ ok obj
    unfolding append rehydrate
    rehydrate-append start s mid {after} obj created_at recorded_at key e empty before stored run
          reads =
        let (r, made, fresh, event, rows) = put_row-ok codec B L s _ e mid stored in
        let counted : counts_from 1 (B.iter_events s) ≡ true =
          ground (arith, Later-well_formed codec B L start empty before) in
        let seq : e.seq ≡ suc (length (B.iter_events s)) =
          ap (λ (x : StoredEvent). x.seq) (sym event) in
        let unused : any (numbered e.seq) (B.iter_events s) ≡ false =
          ap (λ n. any (numbered n) (B.iter_events s)) (seq ∙ omega arith)
          ∙ counts_from-fresh 1 0 (B.iter_events s) counted in
        let found : find (numbered e.seq) (B.iter_events mid) ≡ some e =
          ap (find (numbered e.seq)) rows
          ∙ find-append_fresh (numbered e.seq) (B.iter_events s) e unused
              ((==_iff e.seq e.seq).1 refl) in
        let kept = Later-find codec B L (numbered e.seq) mid e run found in
        let (typed, payload, digest) = row_for-fields obj created_at recorded_at key r made in
        let e_typed : record_type_for obj ≡ ok e.record_type =
          typed ∙ ap (λ (x : StoredEvent). ok x.record_type) event in
        let e_payload : model_dump_json obj ≡ e.payload_json =
          payload ∙ ap (λ (x : StoredEvent). x.payload_json) event in
        let e_digest : sha256 e.payload_json ≡ e.payload_sha256 =
          ap sha256 (sym e_payload) ∙ digest ∙ ap (λ (x : StoredEvent). x.payload_sha256) event in
        ap (λ (m : Result StorageError (Unit {0})). m >> rehydrate_payload codec e true)
          (assert_provenance-stored after e (L.get_by_seq-find after e.seq ∙ kept))
        ∙ rehydrate_payload_sound e e_digest (record_type_for-registered obj e.record_type e_typed)
        ∙ ap (rebuild codec e.record_type) (sym e_payload)
        ∙ reads e.record_type e_typed
