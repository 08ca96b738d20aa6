-- ===== src/Storage/Backend.antt =====
-- storage/base.py: the primitives of a backend, and what the policy of the store relies on.
use hermes_personal_options.Common.{
  ℕ, suc, Bool, true, false, ◌≡◌, Option, none, some, List, [], ◌∷◌, ◌++◌, String, Result, ok, err,
  str_eq, length, ◌==◌, any, if◌then◌else◌,
}
use hermes_personal_options.Common.Sort.{select}
use hermes_personal_options.Time.{AwareDateTime}
use hermes_personal_options.Storage.Models.{
  StorageError, duplicate_idempotency_key, RecordType, same_type, StoredEvent,
}

-- A row without its number: the arguments of `_insert`.
pub record NewRow : Type 0 where
  pub record_type : RecordType
  pub record_id : String
  pub idempotency_key : Option String
  pub order_ticket_hash : Option String
  pub created_at : AwareDateTime
  pub recorded_at : AwareDateTime
  pub payload_json : String
  pub payload_sha256 : String

abbrev pub event_of : ℕ → NewRow → StoredEvent
event_of seq r = record {
  seq = seq;
  record_type = r.record_type;
  record_id = r.record_id;
  idempotency_key = r.idempotency_key;
  order_ticket_hash = r.order_ticket_hash;
  created_at = r.created_at;
  recorded_at = r.recorded_at;
  payload_json = r.payload_json;
  payload_sha256 = r.payload_sha256;
}

-- The row carries that key.
abbrev pub has_key : String → Option String → Bool
has_key k none = false
has_key k (some l) = str_eq l k

abbrev pub carries : String → StoredEvent → Bool
carries k e = has_key k e.idempotency_key

-- A row with the new row's key is there already.
abbrev pub key_taken : List StoredEvent → Option String → Bool
key_taken rows none = false
key_taken rows (some k) = any (carries k) rows

-- The first row that the test finds.
abbrev pub find : (StoredEvent → Bool) → List StoredEvent → Option StoredEvent
find p [] = none
find p (e ∷ rows) = let later = find p rows in if p e then some e else later

abbrev pub numbered : ℕ → StoredEvent → Bool
numbered n e = e.seq == n

abbrev pub of_type : RecordType → StoredEvent → Bool
of_type t e = same_type e.record_type t

-- `_insert`, `iter_events` with no filter and with one, and the two lookups.
pub record Backend : Type 1 where
  pub State : Type 0
  pub insert : State → NewRow → Result StorageError ℕ × State
  pub iter_events : State → List StoredEvent
  pub iter_events_of : State → RecordType → List StoredEvent
  pub get_by_idempotency_key : State → String → Option StoredEvent
  pub get_by_seq : State → ℕ → Option StoredEvent

pub record IsLawful (B : Backend) : Type 0 where
  pub insert-number :
      (s : B.State) (r : NewRow)
      → key_taken (B.iter_events s) r.idempotency_key ≡ false
      → (B.insert s r).0 ≡ ok (suc (length (B.iter_events s)))
  pub insert-rows :
      (s : B.State) (r : NewRow)
      → key_taken (B.iter_events s) r.idempotency_key ≡ false
      → B.iter_events (B.insert s r).1
        ≡ B.iter_events s ++ event_of (suc (length (B.iter_events s))) r ∷ []
  pub insert-taken :
      (s : B.State) (r : NewRow)
      → key_taken (B.iter_events s) r.idempotency_key ≡ true
      → B.insert s r ≡ (err duplicate_idempotency_key, s)
  pub iter_events_of-select :
      (s : B.State) (t : RecordType) → B.iter_events_of s t ≡ select (of_type t) (B.iter_events s)
  pub get_by_idempotency_key-find :
      (s : B.State) (k : String) → B.get_by_idempotency_key s k ≡ find (carries k) (B.iter_events s)
  pub get_by_seq-find :
      (s : B.State) (n : ℕ) → B.get_by_seq s n ≡ find (numbered n) (B.iter_events s)
