-- ===== src/Ops/ControlPlane/Identity.antt =====
-- The ids of the artifacts of the operator's commands.
use Prim.Native.String.{◌++◌ as append, count as text_length}
use text.Mathlib.TextLemmas.{append_inj, append_cancel_left, length-append}
use hermes_personal_options.Common.{ℕ, ◌+◌, ◌<◌, ◌≡◌, sym, ◌∙◌, ap, String, length, arith}
use hermes_personal_options.Common.Text.{show_ℕ, show_ℕ-injective}
use hermes_personal_options.Time.{AwareDateTime}
use hermes_personal_options.Ops.ControlPlane.{Command, command_name, ControlPlane, new_artifact_id}

-- A text of a fixed length behind a number leaves room for one number only.
numbered-injective :
    (m n : ℕ) (s t : String)
    → text_length s ≡ text_length t
    → append (show_ℕ m) s ≡ append (show_ℕ n) t
    → m ≡ n
numbered-injective m n s t same_length same =
    let total =
      sym (length-append (show_ℕ m) s) ∙ ap text_length same ∙ length-append (show_ℕ n) t in
    show_ℕ-injective m n ((append_inj same (omega (arith, total, same_length))).0)

module _ (stamp : AwareDateTime → String) where
  -- The texts of clock readings have one length. Then two artifacts of one command, the second at a
  -- longer store, have different ids, even at the same reading.
  pub new_artifact_id-distinct :
      (c d : ControlPlane) (command : Command) (now later : AwareDateTime)
      → ((t u : AwareDateTime) → text_length (stamp t) ≡ text_length (stamp u))
      → length c.store < length d.store
      → ¬ (new_artifact_id stamp c command now ≡ new_artifact_id stamp d command later)
  new_artifact_id-distinct c d command now later fixed longer same =
      let rest = append_cancel_left (command_name command) _ _ same in
      let numbered = append_cancel_left ":" _ _ rest in
      let suffix =
        length-append ":" (stamp now)
        ∙ ap (λ n. text_length ":" + n) (fixed now later)
        ∙ sym (length-append ":" (stamp later)) in
      let equal = numbered-injective (length c.store) (length d.store) _ _ suffix numbered in
      absurd (omega (arith, longer, equal))
