-- ===== src/Storage/Sqlite.antt =====
-- storage/sqlite_store.py: the table `audit_events`, as its rows in the order of `seq`. A read of a row
-- gives back what was written in it. No row is changed or deleted, so AUTOINCREMENT counts the rows.
use hermes_personal_options.Common.{
  ℕ, suc, true, false, ◌≡◌, refl, Option, List, [], ◌∷◌, ◌++◌, String, Result, ok, err, length,
  if◌then◌else◌,
}
use hermes_personal_options.Common.Sort.{select}
use hermes_personal_options.Storage.Models.{
  StorageError, duplicate_idempotency_key, RecordType, StoredEvent,
}
use hermes_personal_options.Storage.Backend.{
  NewRow, event_of, key_taken, carries, find, numbered, of_type, Backend, IsLawful,
}

-- The unique index is partial: rows without a key are exempt.
unfoldable pub insert_row : List StoredEvent → NewRow → Result StorageError ℕ × List StoredEvent
insert_row rows r =
    if key_taken rows r.idempotency_key
    then (err duplicate_idempotency_key, rows)
    else (ok (suc (length rows)), rows ++ event_of (suc (length rows)) r ∷ [])

-- WHERE record_type = ? ORDER BY seq ASC
unfoldable pub rows_of : List StoredEvent → RecordType → List StoredEvent
rows_of rows t = select (of_type t) rows

-- WHERE idempotency_key = ? LIMIT 1
unfoldable pub row_by_key : List StoredEvent → String → Option StoredEvent
row_by_key rows k = find (carries k) rows

-- WHERE seq = ? LIMIT 1
unfoldable pub row_by_seq : List StoredEvent → ℕ → Option StoredEvent
row_by_seq rows n = find (numbered n) rows

abbrev pub sqlite_store : Backend
sqlite_store = record {
  State = List StoredEvent;
  insert = insert_row;
  iter_events = λ rows. rows;
  iter_events_of = rows_of;
  get_by_idempotency_key = row_by_key;
  get_by_seq = row_by_seq;
}

insert_row-number :
    (rows : List StoredEvent) (r : NewRow)
    → key_taken rows r.idempotency_key ≡ false
    → (insert_row rows r).0 ≡ ok (suc (length rows))
unfolding insert_row
insert_row-number rows r fresh = rw fresh refl

insert_row-rows :
    (rows : List StoredEvent) (r : NewRow)
    → key_taken rows r.idempotency_key ≡ false
    → (insert_row rows r).1 ≡ rows ++ event_of (suc (length rows)) r ∷ []
unfolding insert_row
insert_row-rows rows r fresh = rw fresh refl

insert_row-taken :
    (rows : List StoredEvent) (r : NewRow)
    → key_taken rows r.idempotency_key ≡ true
    → insert_row rows r ≡ (err duplicate_idempotency_key, rows)
unfolding insert_row
insert_row-taken rows r taken = rw taken refl

rows_of_lem : (rows : List StoredEvent) (t : RecordType) → rows_of rows t ≡ select (of_type t) rows
unfolding rows_of
rows_of_lem rows t = refl

row_by_key_lem : (rows : List StoredEvent) (k : String) → row_by_key rows k ≡ find (carries k) rows
unfolding row_by_key
row_by_key_lem rows k = refl

row_by_seq_lem : (rows : List StoredEvent) (n : ℕ) → row_by_seq rows n ≡ find (numbered n) rows
unfolding row_by_seq
row_by_seq_lem rows n = refl

-- The table meets the assumptions.
pub sqlite_store-IsLawful : IsLawful sqlite_store
sqlite_store-IsLawful = record {
  insert-number = insert_row-number;
  insert-rows = insert_row-rows;
  insert-taken = insert_row-taken;
  iter_events_of-select = rows_of_lem;
  get_by_idempotency_key-find = row_by_key_lem;
  get_by_seq-find = row_by_seq_lem;
}
