-- ===== src/Ops/ControlPlane/Authority.antt =====
-- The authorizations that a typed confirmation gives.
use hermes_personal_options.Common.{
  ◌≡◌, refl, sym, ◌∙◌, ap, true, false, none, some, Result, ok, err, String, ℕ, ◌↔◌, str_eq,
  ok-injective, ◌==◌, arith, ==_iff, Bool-cases, inl, inr, if◌then◌else◌,
}
use hermes_personal_options.Common.Dict.{same_key}
use hermes_personal_options.Ops.ControlPlane.{
  Command, command_ordinal, confirmation_error, Authorization, confirm_human, authorization_problem,
  same_command,
}

-- The command of an ordinal.
command_at : ℕ → Command
command_at n =
    if n == 0
    then Command.status
    else if n == 1
    then Command.halt_new_entries
    else if n == 2
    then Command.resume_new_entries
    else if n == 3
    then Command.flatten_paper_only
    else if n == 4
    then Command.cancel_open_orders
    else if n == 5
    then Command.show_open_orders
    else if n == 6
    then Command.show_positions
    else if n == 7
    then Command.show_last_decision
    else Command.export_audit

command_at_ordinal : (k : Command) → command_at (command_ordinal k) ≡ k
unfolding command_at
command_at_ordinal Command.status = refl
command_at_ordinal Command.halt_new_entries = refl
command_at_ordinal Command.resume_new_entries = refl
command_at_ordinal Command.flatten_paper_only = refl
command_at_ordinal Command.cancel_open_orders = refl
command_at_ordinal Command.show_open_orders = refl
command_at_ordinal Command.show_positions = refl
command_at_ordinal Command.show_last_decision = refl
command_at_ordinal Command.export_audit = refl

same_command_sound : (a b : Command) → same_command a b ≡ true → a ≡ b
same_command_sound a b h =
    sym (command_at_ordinal a)
    ∙ ap command_at ((==_iff (command_ordinal a) (command_ordinal b)).0 h)
    ∙ command_at_ordinal b

human : Command → Authorization
human confirmed = record { type_name = "HumanAuthorization"; bound = some confirmed }

not_ok : {E A : Type 0} {e : E} {a : A} → ◌≡◌ {A = Result E A} (err e) (ok a) → ⊥
not_ok h = cc

confirm_human-refused :
    (confirmed : Command) (typed expected : String)
    → str_eq typed expected ≡ false
    → confirm_human confirmed typed expected ≡ err confirmation_error
unfolding confirm_human
confirm_human-refused confirmed typed expected differ = rw (differ, confirm_human) refl

confirm_human-ok :
    (confirmed : Command) (typed expected : String) (auth : Authorization)
    → confirm_human confirmed typed expected ≡ ok auth
    → (typed ≡ expected) × (human confirmed ≡ auth)
unfolding confirm_human human
confirm_human-ok confirmed typed expected auth h = elim (Bool-cases (str_eq typed expected)) [
  | inl same ↦
      (same_key typed expected same, ok-injective (sym (rw (same, confirm_human) refl) ∙ h))
  | inr differ ↦ absurd (not_ok (sym (confirm_human-refused confirmed typed expected differ) ∙ h))
]

permits_same :
    (confirmed issued : Command)
    → authorization_problem (human confirmed) issued ≡ none
    → same_command confirmed issued ≡ true
unfolding human
permits_same confirmed issued h = ground arith

human-permits :
    (confirmed issued : Command)
    → authorization_problem (human confirmed) issued ≡ none ↔ confirmed ≡ issued
unfolding human
human-permits confirmed issued = (
  λ h. same_command_sound confirmed issued (permits_same confirmed issued h),
  λ h.
      rw ((==_iff (command_ordinal confirmed) (command_ordinal issued)).1 (ap command_ordinal h))
        refl,
)

-- An authorization that a typed confirmation gave was given for the exact phrase, and it permits the
-- command that was confirmed and no other.
pub confirm_human-Permits :
    (confirmed : Command) (typed expected : String) (auth : Authorization)
    → confirm_human confirmed typed expected ≡ ok auth
    → (typed ≡ expected)
      × ((issued : Command) → authorization_problem auth issued ≡ none ↔ confirmed ≡ issued)
confirm_human-Permits confirmed typed expected auth h =
    let (phrase, same) = confirm_human-ok confirmed typed expected auth h in
    (phrase, λ issued. rw (sym same) (human-permits confirmed issued))
