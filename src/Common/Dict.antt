-- ===== src/Common/Dict.antt =====
-- A dict with string keys, in insertion order: an assignment to a key that is there replaces its
-- value in place, and any other appends.
use Prim.Native.String.{String}
use mathlib.Core.Path.{◌≡◌, refl, ◌∙◌, sym, ap}
use mathlib.Core.Bool.{Bool, true, false, ◌&&◌}
use mathlib.Core.Option.{Option, none, some}
use mathlib.Core.List.{List, [], ◌∷◌}
use mathlib.Core.Logic.{inl, inr}
use native.Mathlib.Omega.{arith}
use text.Mathlib.TextEquality.{eq_iff}
use text.Mathlib.Text.{◌==◌ as str_eq}
use hermes_personal_options.Common.Tests.{if◌then◌else◌, Bool-cases}

pub same_key : (a k : String) → str_eq a k ≡ true → a ≡ k
same_key a k = (eq_iff a k).0

module _ {ℓ} {V : Type ℓ} where
  -- `d.get(key)`
  abbrev pub get : List (String × V) → String → Option V
  get [] k = none
  get (e ∷ d) k = if str_eq e.0 k then some e.1 else get d k

  -- `d[key] = value`
  abbrev pub set : List (String × V) → String → V → List (String × V)
  set [] k v = (k, v) ∷ []
  set (e ∷ d) k v = let rest = set d k v in if str_eq e.0 k then (e.0, v) ∷ d else e ∷ rest

  -- A test that holds of every entry.
  abbrev pub all_entries : (String → V → Bool) → List (String × V) → Bool
  all_entries p [] = true
  all_entries p (e ∷ d) = p e.0 e.1 && all_entries p d

  pub get-set_same : (d : List (String × V)) (k : String) (v : V) → get (set d k v) k ≡ some v
  get-set_same [] k v = rw ((eq_iff k k).1 refl) refl
  get-set_same (e ∷ d) k v = elim (Bool-cases (str_eq e.0 k)) [
    | inl same ↦ rw same (rw same refl)
    | inr other ↦ rw other (rw other (get-set_same d k v))
  ]

  pub get-set_other :
      (d : List (String × V)) (k l : String) (v : V)
      → str_eq k l ≡ false
      → get (set d k v) l ≡ get d l
  get-set_other [] k l v h = rw h refl
  get-set_other (e ∷ d) k l v h = elim (Bool-cases (str_eq e.0 k)) [
    | inl same ↦ rw same (rw (ap (λ x. str_eq x l) (same_key e.0 k same) ∙ h) refl)
    | inr other ↦
        rw other (ap (λ r. if str_eq e.0 l then some e.1 else r) (get-set_other d k l v h))
  ]

  pub all_entries-set :
      (p : String → V → Bool) (d : List (String × V)) (k : String) (v : V)
      → all_entries p d ≡ true
      → p k v ≡ true
      → all_entries p (set d k v) ≡ true
  all_entries-set p [] k v h new = rw new refl
  all_entries-set p (e ∷ d) k v h new = elim (Bool-cases (str_eq e.0 k)) [
    | inl same ↦ rw same (rw (ap (λ x. p x v) (same_key e.0 k same) ∙ new) (ground arith))
    | inr other ↦ rw other (ground (arith, all_entries-set p d k v (ground arith) new))
  ]

  pub all_entries-get :
      (p : String → V → Bool) (d : List (String × V)) (k : String) (v : V)
      → all_entries p d ≡ true
      → get d k ≡ some v
      → p k v ≡ true
  all_entries-get p [] k v h found = cc
  all_entries-get p (e ∷ d) k v h found = elim (Bool-cases (str_eq e.0 k)) [
    | inl same ↦
        let key : e.0 ≡ k = same_key e.0 k same in
        let value : e.1 ≡ v = ground arith in
        ap (λ w. p k w) (sym value) ∙ ap (λ x. p x e.1) (sym key) ∙ ground arith
    | inr other ↦ all_entries-get p d k v (ground arith) (ground arith)
  ]
