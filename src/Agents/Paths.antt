-- ===== src/Agents/Paths.antt =====
-- agents/permissions.py: the guard of write paths. A path is its code points; `casefold` writes out the
-- code points that fold to ASCII ones, and leaves those that fold to others.
use hermes_personal_options.Common.{
  ℕ, Bool, true, false, not, ◌&&◌, ◌||◌, Option, none, some, List, [], ◌∷◌, ◌++◌, any, map, String,
  Result, ◌>>◌, raise_if, ◌==◌, if◌then◌else◌,
}
use hermes_personal_options.Common.Sort.{select}
use hermes_personal_options.Common.Text.{codes, same_codes, is_space, lower_code}
use hermes_personal_options.Agents.Permissions.{
  AgentPermissionError, empty_path, not_relative, hook_locked,
}

abbrev pub slash : ℕ
slash = b'/'

-- `HOOK_LOCKED_WRITE_PREFIXES`
abbrev pub hook_locked_write_prefixes : List String
hook_locked_write_prefixes =
    "CONSTITUTION.md" ∷ "schemas/" ∷ "gateway/" ∷ "broker/" ∷ "brokers/" ∷ "temporal_workflows/"
    ∷ "tests/" ∷ "policy/" ∷ []

-- `not path.strip()`
abbrev pub is_blank : List ℕ → Bool
is_blank [] = true
is_blank (c ∷ cs) = is_space c && is_blank cs

-- `path.replace("\\", "/")`
abbrev pub forward : ℕ → ℕ
forward c = if c == 92 then slash else c

abbrev pub push : ℕ → List (List ℕ) → List (List ℕ)
push c [] = (c ∷ []) ∷ []
push c (s ∷ ss) = (c ∷ s) ∷ ss

-- `text.split("/")`
abbrev pub split_slash : List ℕ → List (List ℕ)
split_slash [] = [] ∷ []
split_slash (c ∷ cs) = let rest = split_slash cs in if c == slash then [] ∷ rest else push c rest

abbrev pub is_part : List ℕ → Bool
is_part s = not (same_codes s []) && not (same_codes s (b'.' ∷ []))

-- `PurePosixPath(text).parts` of a relative path
abbrev pub path_parts : List ℕ → List (List ℕ)
path_parts text = select is_part (split_slash text)

abbrev pub join_slash : List ℕ → List (List ℕ) → List ℕ
join_slash s [] = s
join_slash s (t ∷ ts) = s ++ slash ∷ join_slash t ts

-- `as_posix()` of a relative path
abbrev pub as_posix : List (List ℕ) → List ℕ
as_posix [] = b'.' ∷ []
as_posix (s ∷ ss) = join_slash s ss

-- `is_absolute()` of the text with slashes
abbrev pub is_absolute : List ℕ → Bool
is_absolute [] = false
is_absolute (c ∷ cs) = c == slash

-- A drive of `PureWindowsPath`, where the text does not start with a slash of either kind.
abbrev pub has_drive : List ℕ → Bool
has_drive (c ∷ d ∷ cs) = d == b':'
has_drive _ = false

-- `..`
abbrev pub is_parent : List ℕ → Bool
is_parent s = same_codes s (b'.' ∷ b'.' ∷ [])

-- Folds of other characters that have ASCII characters in them.
abbrev pub special_folds : List (ℕ × List ℕ)
special_folds =
    (0xDF, b's' ∷ b's' ∷ [])
    ∷ (0x130, b'i' ∷ 0x307 ∷ [])
    ∷ (0x149, 0x2BC ∷ b'n' ∷ [])
    ∷ (0x17F, b's' ∷ [])
    ∷ (0x1F0, b'j' ∷ 0x30C ∷ [])
    ∷ (0x1E96, b'h' ∷ 0x331 ∷ [])
    ∷ (0x1E97, b't' ∷ 0x308 ∷ [])
    ∷ (0x1E98, b'w' ∷ 0x30A ∷ [])
    ∷ (0x1E99, b'y' ∷ 0x30A ∷ [])
    ∷ (0x1E9A, b'a' ∷ 0x2BE ∷ [])
    ∷ (0x1E9E, b's' ∷ b's' ∷ [])
    ∷ (0x212A, b'k' ∷ [])
    ∷ (0xFB00, b'f' ∷ b'f' ∷ [])
    ∷ (0xFB01, b'f' ∷ b'i' ∷ [])
    ∷ (0xFB02, b'f' ∷ b'l' ∷ [])
    ∷ (0xFB03, b'f' ∷ b'f' ∷ b'i' ∷ [])
    ∷ (0xFB04, b'f' ∷ b'f' ∷ b'l' ∷ [])
    ∷ (0xFB05, b's' ∷ b't' ∷ [])
    ∷ (0xFB06, b's' ∷ b't' ∷ [])
    ∷ []

abbrev pub special_fold : List (ℕ × List ℕ) → ℕ → Option (List ℕ)
special_fold [] c = none
special_fold (e ∷ es) c = if c == e.0 then some e.1 else special_fold es c

abbrev pub fold_or : Option (List ℕ) → ℕ → List ℕ
fold_or none c = lower_code c ∷ []
fold_or (some folded) c = folded

abbrev pub fold_code : ℕ → List ℕ
fold_code c = fold_or (special_fold special_folds c) c

unfoldable pub casefold : List ℕ → List ℕ
casefold [] = []
casefold (c ∷ cs) = fold_code c ++ casefold cs

-- `prefix.rstrip("/")`
abbrev cut_slash : ℕ → List ℕ → List ℕ
cut_slash c [] = if c == slash then [] else c ∷ []
cut_slash c (d ∷ cs) = c ∷ d ∷ cs

abbrev pub rstrip_slash : List ℕ → List ℕ
rstrip_slash [] = []
rstrip_slash (c ∷ cs) = cut_slash c (rstrip_slash cs)

unfoldable pub locked_name : String → List ℕ
unfolding casefold
locked_name prefix = casefold (rstrip_slash (codes prefix))

-- `text.startswith(prefix)`
abbrev pub starts_with : List ℕ → List ℕ → Bool
starts_with text [] = true
starts_with [] (d ∷ ds) = false
starts_with (c ∷ cs) (d ∷ ds) = c == d && starts_with cs ds

abbrev pub targets : List ℕ → List ℕ → Bool
targets text locked = same_codes text locked || starts_with text (locked ++ slash ∷ [])

unfoldable pub is_hook_locked : List ℕ → Bool
unfolding locked_name
is_hook_locked text = any (λ p. targets text (locked_name p)) hook_locked_write_prefixes

unfoldable pub assert_write_path_allowed : String → Result AgentPermissionError (Unit {0})
unfolding casefold is_hook_locked
assert_write_path_allowed path =
    let text = map forward (codes path) in
    let parts = path_parts text in
    raise_if (is_blank (codes path)) empty_path
    >> (raise_if (is_absolute text || has_drive (codes path) || any is_parent parts) not_relative
        >> raise_if (is_hook_locked (casefold (as_posix parts))) hook_locked)
