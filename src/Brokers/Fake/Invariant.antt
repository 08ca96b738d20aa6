-- ===== src/Brokers/Fake/Invariant.antt =====
-- What holds of every fake broker that a sequence of submissions and cancellations leads to.
use text.Mathlib.TextLemmas.{append_cancel_left}
use hermes_personal_options.Common.{
  ◌≡◌, refl, sym, ◌∙◌, ap, Bool, true, false, not, ◌&&◌, Option, none, some, List, [], ◌∷◌, String,
  ltb, ◌==◌, str_eq, eq_iff, is_absent, arith, Bool-cases, inl, inr, if◌then◌else◌,
}
use hermes_personal_options.Common.Dict.{
  get, set, all_entries, get-set_same, get-set_other, all_entries-set, same_key,
}
use hermes_personal_options.Schemas.Enums.{is_filled}
use hermes_personal_options.Brokers.Base.{BrokerFill}
use hermes_personal_options.Brokers.Fake.{FakeBroker, order_id_value, record_fill}

-- A fill is full with a price and a time, or lacks a contract.
unfoldable pub fill_sound : BrokerFill → Bool
fill_sound f =
    ltb 0 f.requested_contracts
    && (if is_filled f.lifecycle_state
        then f.filled_contracts == f.requested_contracts
          && (not (is_absent f.avg_fill_price) && not (is_absent f.fill_timestamp))
        else ltb f.filled_contracts f.requested_contracts)

-- The index has the key of the order under its id.
abbrev pub is_key : String → Option String → Bool
is_key key none = false
is_key key (some k) = str_eq k key

abbrev pub indexed : List (String × String) → String → Bool
indexed index key = is_key key (get index (order_id_value key))

abbrev pub recorded : List (String × BrokerFill) → String → Bool
recorded fills key = not (is_absent (get fills key))

abbrev pub fill_entry : List (String × String) → String → BrokerFill → Bool
fill_entry index key f =
    str_eq f.broker_order_id.value (order_id_value key) && (fill_sound f && indexed index key)

abbrev pub index_entry : List (String × BrokerFill) → String → String → Bool
index_entry fills order_id key = str_eq order_id (order_id_value key) && recorded fills key

-- Every fill has the id of its key, is sound and is indexed, and every entry of the index leads to
-- a fill.
unfoldable pub well_formed : FakeBroker → Bool
well_formed b =
    all_entries (fill_entry b.index) b.fills && all_entries (index_entry b.fills) b.index

-- A test that implies another, on every entry.
pub all_entries_mono :
    {V : Type 0} (p q : String → V → Bool) (d : List (String × V))
    → ((k : String) (v : V) → p k v ≡ true → q k v ≡ true)
    → all_entries p d ≡ true
    → all_entries q d ≡ true
all_entries_mono p q [] imp h = refl
all_entries_mono p q (e ∷ d) imp h =
    let head = imp e.0 e.1 (ground arith) in
    ground (arith, head, all_entries_mono p q d imp (ground arith))

indexed_new :
    (index : List (String × String)) (key : String)
    → indexed (set index (order_id_value key) key) key ≡ true
indexed_new index key =
    rw (get-set_same index (order_id_value key) key, indexed) ((eq_iff key key).1 refl)

indexed_kept :
    (index : List (String × String)) (key other : String)
    → indexed index other ≡ true
    → indexed (set index (order_id_value key) key) other ≡ true
indexed_kept index key other h =
    elim (Bool-cases (str_eq (order_id_value key) (order_id_value other))) [
      | inl same ↦
          let equal = append_cancel_left "FAKE-" key other (same_key _ _ same) in
          ap (indexed (set index (order_id_value key) key)) (sym equal) ∙ indexed_new index key
      | inr differ ↦
          rw (get-set_other index (order_id_value key) (order_id_value other) key differ, indexed) h
    ]

recorded_new :
    (fills : List (String × BrokerFill)) (key : String) (f : BrokerFill)
    → recorded (set fills key f) key ≡ true
recorded_new fills key f = rw (get-set_same fills key f) refl

recorded_kept :
    (fills : List (String × BrokerFill)) (key other : String) (f : BrokerFill)
    → recorded fills other ≡ true
    → recorded (set fills key f) other ≡ true
recorded_kept fills key other f h = elim (Bool-cases (str_eq key other)) [
  | inl same ↦
      ap (recorded (set fills key f)) (sym (same_key key other same)) ∙ recorded_new fills key f
  | inr differ ↦ rw (get-set_other fills key other f differ) h
]

-- Replacing or adding the fill of a key keeps the index's entries.
pub index-set_fill :
    (b : FakeBroker) (key : String) (f : BrokerFill)
    → all_entries (index_entry b.fills) b.index ≡ true
    → all_entries (index_entry (set b.fills key f)) b.index ≡ true
index-set_fill b key f =
    all_entries_mono (index_entry b.fills) (index_entry (set b.fills key f)) b.index
      (λ order_id other h. ground (arith, recorded_kept b.fills key other f (ground arith)))

-- The fills of a broker in which an order is recorded.
fills-record :
    (b : FakeBroker) (key : String) (f : BrokerFill)
    → all_entries (fill_entry b.index) b.fills ≡ true
    → f.broker_order_id.value ≡ order_id_value key
    → fill_sound f ≡ true
    → all_entries (fill_entry (set b.index (order_id_value key) key)) (set b.fills key f) ≡ true
fills-record b key f h id sound =
    let index = set b.index (order_id_value key) key in
    let kept =
      all_entries_mono (fill_entry b.index) (fill_entry index) b.fills
        (λ other g e. ground (arith, indexed_kept b.index key other (ground arith))) h in
    let same = (eq_iff f.broker_order_id.value (order_id_value key)).1 id in
    all_entries-set (fill_entry index) b.fills key f kept
      (ground (arith, same, indexed_new b.index key))

index-record :
    (b : FakeBroker) (key : String) (f : BrokerFill)
    → all_entries (index_entry b.fills) b.index ≡ true
    → all_entries (index_entry (set b.fills key f)) (set b.index (order_id_value key) key) ≡ true
index-record b key f h =
    let same = (eq_iff (order_id_value key) (order_id_value key)).1 refl in
    all_entries-set (index_entry (set b.fills key f)) b.index (order_id_value key) key
      (index-set_fill b key f h) (ground (arith, same, recorded_new b.fills key f))

pub record_fill-well_formed :
    (b : FakeBroker) (key : String) (f : BrokerFill)
    → well_formed b ≡ true
    → f.broker_order_id.value ≡ order_id_value key
    → fill_sound f ≡ true
    → well_formed (record_fill b key f) ≡ true
unfolding well_formed
record_fill-well_formed b key f h id sound = rw id (
    ground
      (arith, fills-record b key f (ground arith) id sound, index-record b key f (ground arith)))
