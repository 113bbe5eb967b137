-- ===== src/Events/Subject.antt =====
-- Subjects: `buildSubject` of events/outbox_relay.go and `namespaceOf` of events/consumer.go.
use Prim.Native.Char.{code}
use thclaws_thai_ai_agent.Base.{
  String, ◌≡◌, ◌≢◌, refl, true, false, ◌||◌, Option, none, some, str_eq, eq_iff, ◌==◌,
  if◌then◌else◌, Bool-cases, inl, inr, subst, sym,
}
use thclaws_thai_ai_agent.Base.Text.{append, has_suffix}

-- `buildSubject`
unfoldable pub build_subject : String → String → String
unfolding append has_suffix
build_subject topic namespace =
    if has_suffix topic (append "." namespace) || str_eq topic namespace
    then topic
    else append topic (append "." namespace)

-- What stands behind the last dot, if there is one.
unfoldable pub after_last_dot : String → Option String
after_last_dot String.[] = none
after_last_dot (String.◌∷◌ c s) = elim (after_last_dot s) [
  | some t ↦ some t
  | none ↦ if code c == b'.' then some s else none
]

-- `idx < 0 || idx == len(subject)-1`, or a wildcard
abbrev tail_or_empty : Option String → String
tail_or_empty none = ""
tail_or_empty (some t) = if str_eq t "*" || str_eq t ">" then "" else t

-- `namespaceOf`
unfoldable pub namespace_of : String → String
unfolding after_last_dot
namespace_of subject = tail_or_empty (after_last_dot subject)

namespace_of_test : namespace_of (build_subject "ledger.tx" "u1") ≡ "u1"
unfolding namespace_of build_subject
namespace_of_test = refl

-- A namespace that is one token of a subject: no dot, no wildcard.
pub record IsToken (namespace : String) : Type 0 where
  pub no_dot : after_last_dot namespace ≡ none
  pub no_star : str_eq namespace "*" ≡ false
  pub no_tail : str_eq namespace ">" ≡ false

after_last_dot-dot :
    (ns : String) → after_last_dot ns ≡ none → after_last_dot (append "." ns) ≡ some ns
unfolding after_last_dot append
after_last_dot-dot ns h = rw h

after_last_dot-append :
    (s t : String) (ns : String)
    → after_last_dot t ≡ some ns
    → after_last_dot (append s t) ≡ some ns
unfolding after_last_dot append
after_last_dot-append String.[] t ns h = h
after_last_dot-append (String.◌∷◌ c s) t ns h = rw (after_last_dot-append s t ns h)

after_last_dot-suffix :
    (s t : String) (ns : String)
    → has_suffix s t ≡ true
    → after_last_dot t ≡ some ns
    → after_last_dot s ≡ some ns
unfolding has_suffix after_last_dot
after_last_dot-suffix String.[] String.[] ns h e = e
after_last_dot-suffix String.[] (String.◌∷◌ d t) ns h e = cc
after_last_dot-suffix (String.◌∷◌ c s) t ns h e = elim (Bool-cases (str_eq (String.◌∷◌ c s) t)) [
  | inl p ↦ subst (λ k. after_last_dot k ≡ some ns) (sym ((eq_iff (String.◌∷◌ c s) t).0 p)) e
  | inr p ↦ rw (after_last_dot-suffix s t ns (rw p at h) e)
]

-- The consumer reads from the subject of a message the namespace that the relay put there, if the
-- namespace is one token and the topic is not the namespace alone.
pub namespace_of-build_subject :
    (topic namespace : String)
    → IsToken namespace
    → topic ≢ namespace
    → namespace_of (build_subject topic namespace) ≡ namespace
unfolding namespace_of build_subject
namespace_of-build_subject topic namespace h ne =
    elim (Bool-cases (has_suffix topic (append "." namespace))) [
      | inl p ↦
          rw p
            (rw (after_last_dot-suffix topic (append "." namespace) namespace p dotted) plain_tail)
      | inr p ↦ rw p (elim (Bool-cases (str_eq topic namespace)) [
        | inl q ↦ absurd (ne ((eq_iff topic namespace).0 q))
        | inr q ↦
            rw q
              (rw (after_last_dot-append topic (append "." namespace) namespace dotted) plain_tail)
      ])
    ]
  where
    dotted : after_last_dot (append "." namespace) ≡ some namespace
    dotted = after_last_dot-dot namespace h.no_dot

    plain_tail :
        (if str_eq namespace "*" || str_eq namespace ">" then "" else namespace) ≡ namespace
    plain_tail = rw (h.no_star, h.no_tail)
