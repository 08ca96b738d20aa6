-- ===== src/Common/Text.antt =====
-- Texts that the code builds: decimal numbers, and the case-insensitive test of a word.
use Prim.Native.Char.{code}
use Prim.Native.String.append
use hermes_personal_options.Common.Tests.{ltb, leb, ◌==◌, if◌then◌else◌}
use Prim.Native.Nat.{ℕ, zero, suc, ◌+◌, ◌-◌, ◌*◌, ◌/◌, ◌%◌, ◌<◌}
use Prim.Native.String.{String, ◌++◌, count as text_length}
use text.Mathlib.Text.{◌==◌ as str_eq}
use text.Mathlib.TextEquality.{eq_iff}
use mathlib.Core.Path.{◌≡◌, refl, sym, ap, ◌∙◌}
use mathlib.Core.Bool.{Bool, true, false, ◌&&◌, ◌||◌}
use mathlib.Core.List.{List, [], ◌∷◌, map}
use mathlib.Core.Logic.{inl, inr}
use native.Mathlib.Omega.{arith}
use hermes_personal_options.Common.Lists.{any}
use hermes_personal_options.Common.Tests.{Bool-cases}

abbrev digits : List String
digits = "0" ∷ "1" ∷ "2" ∷ "3" ∷ "4" ∷ "5" ∷ "6" ∷ "7" ∷ "8" ∷ "9" ∷ []

abbrev nth_text : List String → ℕ → String
nth_text [] i = ""
nth_text (s ∷ ss) zero = s
nth_text (s ∷ ss) (suc i) = nth_text ss i

abbrev digit : ℕ → String
digit d = nth_text digits d

-- The fuel n + 1 is enough, since n / 10 < n.
show_from : ℕ → ℕ → String
show_from zero n = ""
show_from (suc fuel) n =
    let longer = show_from fuel (n / 10) ++ digit (n % 10) in if ltb n 10 then digit n else longer

-- `str(n)`
unfoldable pub show_ℕ : ℕ → String
unfolding show_from
show_ℕ n = show_from (suc n) n

-- Reads the digits back.
read_from : ℕ → String → ℕ
read_from acc String.[] = acc
read_from acc (String.◌∷◌ c s) = read_from (acc * 10 + (code c - 48)) s

read_from-append : (acc : ℕ) (s t : String) → read_from acc (s ++ t) ≡ read_from (read_from acc s) t
unfolding read_from
read_from-append acc String.[] t = ap (read_from acc) (λ i. append.nil t i)
read_from-append acc (String.◌∷◌ c s) t =
    ap (read_from acc) (λ i. append.cons c s t i) ∙ read_from-append (acc * 10 + (code c - 48)) s t

read_from-digit : (acc d : ℕ) → d < 10 → read_from acc (digit d) ≡ acc * 10 + d
unfolding read_from
read_from-digit acc zero h = refl
read_from-digit acc (suc zero) h = refl
read_from-digit acc (suc (suc zero)) h = refl
read_from-digit acc (suc (suc (suc zero))) h = refl
read_from-digit acc (suc (suc (suc (suc zero)))) h = refl
read_from-digit acc (suc (suc (suc (suc (suc zero))))) h = refl
read_from-digit acc (suc (suc (suc (suc (suc (suc zero)))))) h = refl
read_from-digit acc (suc (suc (suc (suc (suc (suc (suc zero))))))) h = refl
read_from-digit acc (suc (suc (suc (suc (suc (suc (suc (suc zero)))))))) h = refl
read_from-digit acc (suc (suc (suc (suc (suc (suc (suc (suc (suc zero))))))))) h = refl
read_from-digit acc (suc (suc (suc (suc (suc (suc (suc (suc (suc (suc d)))))))))) h =
    absurd (omega arith)

read-show_from : (fuel n : ℕ) → n < fuel → read_from 0 (show_from fuel n) ≡ n
unfolding show_from
read-show_from zero n h = absurd (omega arith)
read-show_from (suc fuel) n h = elim (Bool-cases (ltb n 10)) [
  | inl small ↦ rw small (read_from-digit 0 n (ground arith) ∙ omega arith)
  | inr large ↦ rw large (
      read_from-append 0 (show_from fuel (n / 10)) (digit (n % 10))
      ∙ read_from-digit (read_from 0 (show_from fuel (n / 10))) (n % 10) (omega arith)
      ∙ omega (arith, read-show_from fuel (n / 10) (ground arith)))
]

-- Two numbers with one text are one number.
pub show_ℕ-injective : (m n : ℕ) → show_ℕ m ≡ show_ℕ n → m ≡ n
unfolding show_ℕ
show_ℕ-injective m n h =
    sym (read-show_from (suc m) m (omega arith))
    ∙ ap (read_from 0) h
    ∙ read-show_from (suc n) n (omega arith)

-- `text[:n]`
abbrev pub text_prefix : ℕ → String → String
text_prefix zero s = ""
text_prefix (suc n) String.[] = ""
text_prefix (suc n) (String.◌∷◌ c s) = String.◌∷◌ c (text_prefix n s)

-- The code points of a text.
abbrev pub codes : String → List ℕ
codes String.[] = []
codes (String.◌∷◌ c s) = code c ∷ codes s

abbrev upper_code : ℕ → ℕ
upper_code c = if leb b'a' c && leb c b'z' then c - 32 else c

abbrev pub same_codes : List ℕ → List ℕ → Bool
same_codes [] [] = true
same_codes [] (d ∷ ds) = false
same_codes (c ∷ cs) [] = false
same_codes (c ∷ cs) (d ∷ ds) = c == d && same_codes cs ds

-- `text.upper() == word`, for a word of ASCII capitals that no other letter turns into.
unfoldable pub upper_is : String → String → Bool
upper_is word text = same_codes (map upper_code (codes text)) (codes word)

-- One letter in lower case, for ASCII.
abbrev pub lower_code : ℕ → ℕ
lower_code c = if leb b'A' c && leb c b'Z' then c + 32 else c

-- `str.isspace` of one character
abbrev pub is_space : ℕ → Bool
is_space c =
    leb 9 c && leb c 13
    || leb 28 c && leb c 32
    || leb 8192 c && leb c 8202
    || any (◌==◌ c) (133 ∷ 160 ∷ 5760 ∷ 8232 ∷ 8233 ∷ 8239 ∷ 8287 ∷ 12288 ∷ [])

-- `text.lstrip()`
abbrev lstrip : List ℕ → List ℕ
lstrip [] = []
lstrip (c ∷ cs) = let rest = lstrip cs in if is_space c then rest else c ∷ cs

-- `text.rstrip()`: a space is kept in front of a character that is kept.
abbrev keep_space : ℕ → List ℕ → List ℕ
keep_space c [] = if is_space c then [] else c ∷ []
keep_space c (d ∷ cs) = c ∷ d ∷ cs

abbrev rstrip : List ℕ → List ℕ
rstrip [] = []
rstrip (c ∷ cs) = keep_space c (rstrip cs)

-- `text.strip()`
abbrev pub strip : List ℕ → List ℕ
strip cs = rstrip (lstrip cs)

-- A text with a character is not the empty one.
pub nonempty_text : (s : String) → leb 1 (text_length s) ≡ true → str_eq s "" ≡ false
nonempty_text s long = elim (Bool-cases (str_eq s "")) [
  | inl same ↦
      let empty : s ≡ "" = (eq_iff s "").0 same in
      absurd (cc (ap (λ x. leb 1 (text_length x)) empty, long))
  | inr other ↦ other
]
