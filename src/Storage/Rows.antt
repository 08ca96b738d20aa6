-- ===== src/Storage/Rows.antt =====
-- Lists of rows: what an appended row changes in a lookup, in the numbers and in the keys.
use hermes_personal_options.Common.{
  ℕ, suc, ◌+◌, ◌≡◌, refl, sym, ◌∙◌, Bool, true, false, not, ◌&&◌, ◌||◌, Option, none, some, List,
  [], ◌∷◌, ◌++◌, String, eq_iff, length, ◌==◌, any, all, arith, any-append,
}
use hermes_personal_options.Storage.Models.{StoredEvent}
use hermes_personal_options.Storage.Backend.{has_key, carries, key_taken, find, numbered}

pub find-append :
    (p : StoredEvent → Bool) (xs ys : List StoredEvent) {e : StoredEvent}
    → find p xs ≡ some e
    → find p (xs ++ ys) ≡ some e
find-append p [] ys h = cc
find-append p (x ∷ xs) ys {e} h = ground (arith, find-append p xs ys {e = e})

pub find-append_fresh :
    (p : StoredEvent → Bool) (xs : List StoredEvent) (e : StoredEvent)
    → any p xs ≡ false
    → p e ≡ true
    → find p (xs ++ e ∷ []) ≡ some e
find-append_fresh p [] e fresh found = rw found refl
find-append_fresh p (x ∷ xs) e fresh found = ground (arith, find-append_fresh p xs e)

pub find-any :
    (p : StoredEvent → Bool) (xs : List StoredEvent) {e : StoredEvent}
    → find p xs ≡ some e
    → any p xs ≡ true
find-any p [] h = cc
find-any p (x ∷ xs) {e} h = ground (arith, find-any p xs {e = e})

-- The rows are numbered n, n + 1, and so on.
abbrev pub counts_from : ℕ → List StoredEvent → Bool
counts_from n [] = true
counts_from n (e ∷ rows) = e.seq == n && counts_from (suc n) rows

pub counts_from-append :
    (n : ℕ) (rows : List StoredEvent) (e : StoredEvent)
    → counts_from n rows ≡ true
    → e.seq ≡ n + length rows
    → counts_from n (rows ++ e ∷ []) ≡ true
counts_from-append n [] e h next = ground arith
counts_from-append n (x ∷ rows) e h next =
    ground (arith, counts_from-append (suc n) rows e (ground arith) (omega arith))

-- The number behind the last is not in use.
pub counts_from-fresh :
    (n k : ℕ) (rows : List StoredEvent)
    → counts_from n rows ≡ true
    → any (numbered (n + length rows + k)) rows ≡ false
counts_from-fresh n k [] h = refl
counts_from-fresh n k (x ∷ rows) h =
    let shift : n + length (x ∷ rows) + k ≡ suc n + length rows + k = omega arith in
    let later : any (numbered (n + length (x ∷ rows) + k)) rows ≡ false =
      rw shift (counts_from-fresh (suc n) k rows (ground arith)) in
    ground (arith, later)

-- No two rows carry one key.
abbrev pub keys_distinct : List StoredEvent → Bool
keys_distinct [] = true
keys_distinct (e ∷ rows) = not (key_taken rows e.idempotency_key) && keys_distinct rows

or-false : (a b : Bool) → (a || b) ≡ false → (a ≡ false) × (b ≡ false)
or-false true b h = absurd (cc h)
or-false false b h = (refl, h)

key_none : (k : Option String) → key_taken [] k ≡ false
key_none none = refl
key_none (some k) = refl

-- The two optional keys are one key.
abbrev meets : Option String → Option String → Bool
meets none l = false
meets (some k) l = has_key k l

meets_sym : (k l : Option String) → meets k l ≡ meets l k
meets_sym none none = refl
meets_sym none (some l) = refl
meets_sym (some k) none = refl
meets_sym (some k) (some l) = ground (arith, eq_iff k l, eq_iff l k)

key_taken-cons :
    (e : StoredEvent) (rows : List StoredEvent) (k : Option String)
    → key_taken (e ∷ rows) k ≡ (meets k e.idempotency_key || key_taken rows k)
key_taken-cons e rows none = refl
key_taken-cons e rows (some k) = refl

key_taken-append :
    (rows : List StoredEvent) (e : StoredEvent) (k : Option String)
    → key_taken (rows ++ e ∷ []) k ≡ (key_taken rows k || meets k e.idempotency_key)
key_taken-append rows e none = refl
key_taken-append rows e (some k) = ground (arith, any-append (carries k) rows (e ∷ []))

pub keys_distinct-append :
    (rows : List StoredEvent) (e : StoredEvent)
    → keys_distinct rows ≡ true
    → key_taken rows e.idempotency_key ≡ false
    → keys_distinct (rows ++ e ∷ []) ≡ true
keys_distinct-append [] e h fresh = cc (key_none e.idempotency_key)
keys_distinct-append (x ∷ rows) e h fresh =
    let parts = key_taken-cons x rows e.idempotency_key in
    let both = sym parts ∙ fresh in
    let apart =
      or-false (meets e.idempotency_key x.idempotency_key) (key_taken rows e.idempotency_key)
        both in
    ground (
      arith,
      keys_distinct-append rows e (ground arith) apart.1,
      key_taken-append rows e x.idempotency_key,
      meets_sym x.idempotency_key e.idempotency_key,
    )

pub all-append_row :
    (p : StoredEvent → Bool) (rows : List StoredEvent) (e : StoredEvent)
    → all p rows ≡ true
    → p e ≡ true
    → all p (rows ++ e ∷ []) ≡ true
all-append_row p [] e h new = rw new refl
all-append_row p (x ∷ rows) e h new = ground (arith, all-append_row p rows e)
