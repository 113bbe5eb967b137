-- ===== src/Dispatcher/Answers/Sanitized.antt =====
-- What a chat answer never says after `sanitizeChatAnswer` of dispatcher/dispatcher.go.
use thclaws_thai_ai_agent.Base.{String, Bool, true, false, ◌≡◌, refl, List, ◌∷◌, [], if◌then◌else◌}
use thclaws_thai_ai_agent.Base.Text.{is_empty, trim_space, to_lower, contains}
use thclaws_thai_ai_agent.Base.Scan.{contains_any}
use thclaws_thai_ai_agent.Dispatcher.Answers.{
  claims_completed_action, replace_each, no_answer, not_thai, other_helper, nothing_done,
  checked_answer, sanitize_chat_answer,
}

IsHonest : String → Type 0
IsHonest answer = claims_completed_action answer ≡ false

fixed_texts :
    IsHonest no_answer × (IsHonest not_thai × (IsHonest other_helper × IsHonest nothing_done))
unfolding IsHonest claims_completed_action
fixed_texts = (refl, (refl, (refl, refl)))

IsHonest-if :
    (b : Bool) (s t : String)
    → IsHonest s
    → (b ≡ false → IsHonest t)
    → IsHonest (if b then s else t)
IsHonest-if true s t hs ht = hs
IsHonest-if false s t hs ht = ht refl

honest : (answer : String) → claims_completed_action answer ≡ false → IsHonest answer
unfolding IsHonest
honest answer h = h

checked_answer-IsHonest : (answer : String) → IsHonest (checked_answer answer)
unfolding checked_answer
checked_answer-IsHonest answer =
    let done = if claims_completed_action answer then nothing_done else answer in
    let other = if contains answer "ผู้ช่วยอื่น" then other_helper else done in
    IsHonest-if
      (contains_any (to_lower answer)
        ("i'm sorry" ∷ "i cannot provide" ∷ "cannot provide a response" ∷ []))
      not_thai other fixed_texts.1.0
      (λ a. IsHonest-if (contains answer "ผู้ช่วยอื่น") other_helper done fixed_texts.1.1.0 (λ b.
        IsHonest-if (claims_completed_action answer) nothing_done answer fixed_texts.1.1.1
          (honest answer)))

-- In whatever order Go goes through the map of replacements, and whatever the model answered, the
-- text that `sanitizeChatAnswer` returns has none of the phrases that claim a completed entry.
pub sanitize_chat_answer-honest :
    (order : List (String × String)) (answer : String)
    → claims_completed_action (sanitize_chat_answer order answer) ≡ false
unfolding sanitize_chat_answer IsHonest
sanitize_chat_answer-honest order answer =
    IsHonest-if (is_empty (trim_space answer)) no_answer
      (checked_answer (replace_each order (trim_space answer))) fixed_texts.0
      (λ a. checked_answer-IsHonest (replace_each order (trim_space answer)))
