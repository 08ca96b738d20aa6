-- ===== src/Agents/WriteGuard.antt =====
-- agents/permissions.py: what the guard of write paths keeps out.
use mathlib.Core.List.{append_assoc}
use hermes_personal_options.Common.{
  ℕ, Bool, true, false, not, ◌&&◌, ◌||◌, List, [], ◌∷◌, ◌++◌, any, all, map, All, String, is_ok,
  ◌>>◌, raise_if, ◌==◌, ◌≡◌, refl, sym, ap, ◌∙◌, Bool-cases, inl, inr, arith,
}
use hermes_personal_options.Common.Sort.{All-select, All-map}
use hermes_personal_options.Common.Text.{codes, same_codes}
use hermes_personal_options.Agents.Permissions.{empty_path, not_relative, hook_locked}
use hermes_personal_options.Agents.Paths.{
  slash, hook_locked_write_prefixes, is_blank, forward, split_slash, path_parts, push, is_part,
  join_slash, as_posix, is_absolute, has_drive, is_parent, special_folds, special_fold, fold_or,
  fold_code, casefold, locked_name, starts_with, targets, is_hook_locked, assert_write_path_allowed,
}

-- A text without a slash.
abbrev Free : List ℕ → Type 0
Free cs = All (λ c. (c == slash) ≡ false) cs

starts_with-Free : (u l : List ℕ) → Free u → starts_with u (l ++ slash ∷ []) ≡ false
starts_with-Free [] [] h = refl
starts_with-Free [] (d ∷ l) h = refl
starts_with-Free (c ∷ u) [] h = rw h.0 refl
starts_with-Free (c ∷ u) (d ∷ l) h = ground (arith, starts_with-Free u l h.1)

same_codes-slash : (u r l : List ℕ) → Free l → same_codes (u ++ slash ∷ r) l ≡ false
same_codes-slash [] r [] h = refl
same_codes-slash [] r (d ∷ l) h = ground arith
same_codes-slash (c ∷ u) r [] h = refl
same_codes-slash (c ∷ u) r (d ∷ l) h = ground (arith, same_codes-slash u r l h.1)

starts_with-slash :
    (u r l : List ℕ)
    → Free u
    → Free l
    → starts_with (u ++ slash ∷ r) (l ++ slash ∷ []) ≡ same_codes u l
starts_with-slash [] r [] hu hl = refl
starts_with-slash [] r (d ∷ l) hu hl = ground arith
starts_with-slash (c ∷ u) r [] hu hl = rw hu.0 refl
starts_with-slash (c ∷ u) r (d ∷ l) hu hl =
    ap (λ b. c == d && b) (starts_with-slash u r l hu.1 hl.1)

-- A prefix decides on the first part alone.
targets-alone : (u l : List ℕ) → Free u → targets u l ≡ same_codes u l
targets-alone u l h = ground (arith, starts_with-Free u l h)

targets-followed : (u r l : List ℕ) → Free u → Free l → targets (u ++ slash ∷ r) l ≡ same_codes u l
targets-followed u r l hu hl =
    ap (λ b. b || starts_with (u ++ slash ∷ r) (l ++ slash ∷ [])) (same_codes-slash u r l hl)
    ∙ starts_with-slash u r l hu hl

casefold-append : (a b : List ℕ) → casefold (a ++ b) ≡ casefold a ++ casefold b
unfolding casefold
casefold-append [] b = refl
casefold-append (c ∷ a) b =
    ap (λ l. fold_code c ++ l) (casefold-append a b)
    ∙ sym (append_assoc (fold_code c) (casefold a) (casefold b))

Free-append : (a b : List ℕ) → Free a → Free b → Free (a ++ b)
Free-append [] b ha hb = hb
Free-append (c ∷ a) b ha hb = (ha.0, Free-append a b ha.1 hb)

-- The folds of the table have no slash, and a letter's fold is a letter.
special_fold-Free :
    (table : List (ℕ × List ℕ)) (c : ℕ)
    → All (λ e. Free e.1) table
    → (c == slash) ≡ false
    → Free (fold_or (special_fold table c) c)
special_fold-Free [] c h other = (ground arith, tt)
special_fold-Free (e ∷ es) c h other = elim (Bool-cases (c == e.0)) [
  | inl here ↦ rw here h.0
  | inr later ↦ rw later (special_fold-Free es c h.1 other)
]

is_free : List ℕ → Bool
is_free cs = all (λ c. not (c == slash)) cs

is_free-Free : (cs : List ℕ) → is_free cs ≡ true → Free cs
unfolding is_free
is_free-Free [] h = tt
is_free-Free (c ∷ cs) h = (ground arith, is_free-Free cs (ground arith))

all-All :
    {A : Type 0} (P : A → Type 0) (p : A → Bool) (xs : List A)
    → ((x : A) → p x ≡ true → P x)
    → all p xs ≡ true
    → All P xs
all-All P p [] each h = tt
all-All P p (x ∷ xs) each h = (each x (ground arith), all-All P p xs each (ground arith))

folds_free : all (λ (e : ℕ × List ℕ). is_free e.1) special_folds ≡ true
unfolding is_free
folds_free = refl

fold_code-Free : (c : ℕ) → (c == slash) ≡ false → Free (fold_code c)
fold_code-Free c other =
    special_fold-Free special_folds c
      (all-All (λ e. Free e.1) (λ e. is_free e.1) special_folds (λ e. is_free-Free e.1) folds_free)
      other

casefold-Free : (cs : List ℕ) → Free cs → Free (casefold cs)
unfolding casefold
casefold-Free [] h = tt
casefold-Free (c ∷ cs) h =
    Free-append (fold_code c) (casefold cs) (fold_code-Free c h.0) (casefold-Free cs h.1)

push-Free : (c : ℕ) (ss : List (List ℕ)) → (c == slash) ≡ false → All Free ss → All Free (push c ss)
push-Free c [] other h = ((other, tt), tt)
push-Free c (s ∷ ss) other h = ((other, h.0), h.1)

split_slash-Free : (cs : List ℕ) → All Free (split_slash cs)
split_slash-Free [] = (tt, tt)
split_slash-Free (c ∷ cs) = elim (Bool-cases (c == slash)) [
  | inl cut ↦ rw cut (tt, split_slash-Free cs)
  | inr other ↦ rw other (push-Free c (split_slash cs) other (split_slash-Free cs))
]

path_parts-Free : (text : List ℕ) → All Free (path_parts text)
path_parts-Free text =
    All-map (λ s. (is_part s ≡ true) × Free s) Free (path_parts text) (λ s h. h.1)
      (All-select Free is_part (split_slash text) (split_slash-Free text))

-- The part that decides, `.` where there is none.
abbrev pub first_part : List (List ℕ) → List ℕ
first_part [] = b'.' ∷ []
first_part (s ∷ ss) = s

casefold-slash : (cs : List ℕ) → casefold (slash ∷ cs) ≡ slash ∷ casefold cs
unfolding casefold
casefold-slash cs = refl

targets-first_part :
    (parts : List (List ℕ)) (l : List ℕ)
    → All Free parts
    → Free l
    → targets (casefold (as_posix parts)) l ≡ same_codes (casefold (first_part parts)) l
targets-first_part [] l h hl =
    targets-alone (casefold (b'.' ∷ [])) l (casefold-Free (b'.' ∷ []) (refl, tt))
targets-first_part (s ∷ []) l h hl = targets-alone (casefold s) l (casefold-Free s h.0)
targets-first_part (s ∷ t ∷ ts) l h hl =
    ap (λ text. targets text l)
      (casefold-append s (slash ∷ join_slash t ts)
        ∙ ap (λ text. casefold s ++ text) (casefold-slash (join_slash t ts)))
    ∙ targets-followed (casefold s) (casefold (join_slash t ts)) l (casefold-Free s h.0) hl

locked_names_free : all (λ p. is_free (locked_name p)) hook_locked_write_prefixes ≡ true
unfolding locked_name casefold is_free
locked_names_free = refl

locked_names-Free : All (λ p. Free (locked_name p)) hook_locked_write_prefixes
locked_names-Free =
    all-All (λ p. Free (locked_name p)) (λ p. is_free (locked_name p)) hook_locked_write_prefixes
      (λ p. is_free-Free (locked_name p)) locked_names_free

any-same :
    {A : Type 0} (p q : A → Bool) (xs : List A) → All (λ x. p x ≡ q x) xs → any p xs ≡ any q xs
any-same p q [] h = refl
any-same p q (x ∷ xs) h = ground (arith, h.0, any-same p q xs h.1)

-- The description of a path that is let through.
unfoldable pub keeps_out : String → Bool
unfolding casefold locked_name
keeps_out path =
    let text = map forward (codes path) in
    let parts = path_parts text in
    not (is_blank (codes path))
    && (not (is_absolute text || has_drive (codes path) || any is_parent parts)
        && not (
            any (λ p. same_codes (casefold (first_part parts)) (locked_name p))
              hook_locked_write_prefixes))

checks_in_order :
    (a b c : Bool)
    → is_ok (raise_if a empty_path >> (raise_if b not_relative >> raise_if c hook_locked))
      ≡ (not a && (not b && not c))
checks_in_order true b c = refl
checks_in_order false true c = refl
checks_in_order false false true = refl
checks_in_order false false false = refl

-- A write path is let through exactly if it is not blank, is relative without a drive and without `..`,
-- and its first part, with case folded, is not the name of a locked tree.
pub assert_write_path_allowed-first_part :
    (path : String) → is_ok (assert_write_path_allowed path) ≡ keeps_out path
unfolding assert_write_path_allowed is_hook_locked keeps_out
assert_write_path_allowed-first_part path =
    let text = map forward (codes path) in
    let parts = path_parts text in
    let rejected = is_absolute text || has_drive (codes path) || any is_parent parts in
    checks_in_order (is_blank (codes path)) rejected (is_hook_locked (casefold (as_posix parts)))
    ∙ ap (λ b. not (is_blank (codes path)) && (not rejected && not b))
        (any-same (λ p. targets (casefold (as_posix parts)) (locked_name p))
          (λ p. same_codes (casefold (first_part parts)) (locked_name p)) hook_locked_write_prefixes
          (All-map (λ p. Free (locked_name p))
            (λ p.
              targets (casefold (as_posix parts)) (locked_name p)
              ≡ same_codes (casefold (first_part parts)) (locked_name p))
            hook_locked_write_prefixes
            (λ p. targets-first_part parts (locked_name p) (path_parts-Free text))
            locked_names-Free))
