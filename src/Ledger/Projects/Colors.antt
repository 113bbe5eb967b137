-- ===== src/Ledger/Projects/Colors.antt =====
-- `cleanColor` of ledger/projects.go: proofs.
use thclaws_thai_ai_agent.Base.{String, ◌≡◌, refl, true, Bool-cases, inl, inr}
use thclaws_thai_ai_agent.Base.Text.{trim_space}
use thclaws_thai_ai_agent.Ledger.Projects.{is_color, clean_color}

-- Whatever the input, `cleanColor` returns a colour: "#" and six hexadecimal digits. It is the
-- input without the space around it if that is one.
pub clean_color-is_color :
    (color : String)
    → (is_color (clean_color color) ≡ true)
      × (is_color (trim_space color) ≡ true → clean_color color ≡ trim_space color)
unfolding clean_color is_color
clean_color-is_color color = elim (Bool-cases (is_color (trim_space color))) [
  | inl t ↦ rw t (t, λ h. refl)
  | inr f ↦ rw f (refl, λ h. cc)
]
