-- ===== src/Events/Examples.antt =====
-- Runs of the relay and of the subjects, and their theorems at concrete inputs.
use thclaws_thai_ai_agent.Base.{
  ◌++◌, ◌⊎◌, exists, ℕ, String, ◌≡◌, ◌≢◌, refl, true, false, Option, Bool, none, some, [], ◌∷◌,
  length, str_eq, ap,
}
use thclaws_thai_ai_agent.Ledger.Tables.{str, end, field}
use thclaws_thai_ai_agent.Ledger.Events.{LedgerEventInput}
use thclaws_thai_ai_agent.Events.Subject.{
  after_last_dot, IsToken, build_subject, namespace_of, namespace_of-build_subject,
}
use thclaws_thai_ai_agent.Events.Relay.{
  pending, Relay, fetch_pending, text_field, drain_once, process_rows, process_row,
  process_envelope, publish_row, mark_published, bump_attempts,
}
use thclaws_thai_ai_agent.Events.Relay.Delivery.{messages_of, drain_once-sends}
use thclaws_thai_ai_agent.Events.Relay.Marked.{is_done, IsSentFor, drain_once-IsSentFor}
use thclaws_thai_ai_agent.Events.Relay.Blocked.{
  rows_of, appended_never_sent, AllBad, drains, drains-blocked,
}

IsToken-user : IsToken "line_U1"
unfolding after_last_dot
IsToken-user = record { no_dot = refl; no_star = refl; no_tail = refl }

namespace_of-build_subject_example : namespace_of (build_subject "line.event" "line_U1") ≡ "line_U1"
namespace_of-build_subject_example =
    namespace_of-build_subject "line.event" "line_U1" IsToken-user
      (λ e. true_is_not_false (ap (λ s. str_eq s "line.event") e))
  where
    true_is_not_false : true ≢ false
    true_is_not_false e = cc

abbrev accepts : ℕ → Option String
accepts n = none

abbrev writes : ℕ → Bool
writes n = true

-- A row whose payload names no namespace, before one that could be sent.
abbrev two_rows : Relay
two_rows = record {
  rows =
      record {
        id = 1;
        topic = "slip.image";
        payload = some end;
        status = pending;
        attempts = 0;
        last_error = none;
      }
      ∷ record {
        id = 2;
        topic = "line.event";
        payload = some (field "Namespace" (str "line_U1") end);
        status = pending;
        attempts = 0;
        last_error = none;
      }
      ∷ [];
  sent = [];
  calls = 0;
  updates = 0;
  metrics = [];
}

first_is_bad : AllBad (fetch_pending 1 two_rows)
unfolding fetch_pending text_field
first_is_bad = (refl, tt)

drains-blocked_example :
    ((drains accepts writes 3 1 two_rows).sent ≡ [])
    × AllBad (fetch_pending 1 (drains accepts writes 3 1 two_rows))
    × (length (fetch_pending 1 (drains accepts writes 3 1 two_rows))
        ≡ length (fetch_pending 1 two_rows))
drains-blocked_example = drains-blocked accepts writes 3 1 two_rows first_is_bad

abbrev slip : LedgerEventInput
slip = record {
  namespace = "n";
  user_id = "u";
  event_type = "slip.attached";
  payload = end;
  outbox_topic = "slip.image";
  correlation_id = "";
  causation_id = "";
}

abbrev after_append : Relay
after_append = record two_rows { rows = rows_of 1 ((slip, record { id = "1"; now = 7 }) ∷ []) }

appended_never_sent_example : (drains accepts writes 2 200 after_append).sent ≡ []
appended_never_sent_example =
    appended_never_sent accepts writes 2 200 1 ((slip, record { id = "1"; now = 7 }) ∷ [])
      after_append refl

accepts-all : (n : ℕ) → accepts n ≡ none
accepts-all n = refl

drain_once-sends_example :
    (drain_once accepts writes true 200 two_rows).1.sent
    ≡ [] ++ messages_of (fetch_pending 200 two_rows)
drain_once-sends_example = drain_once-sends accepts writes 200 two_rows accepts-all

second_is_done : exists (is_done 2) (drain_once accepts writes true 200 two_rows).1.rows ≡ true
unfolding drain_once process_rows process_row process_envelope publish_row mark_published
    bump_attempts fetch_pending text_field
second_is_done = refl

drain_once-IsSentFor_example :
    (exists (is_done 2) two_rows.rows ≡ true)
    ⊎ IsSentFor 2 (fetch_pending 200 two_rows) (drain_once accepts writes true 200 two_rows).1.sent
drain_once-IsSentFor_example = drain_once-IsSentFor accepts writes 2 200 two_rows second_is_done
