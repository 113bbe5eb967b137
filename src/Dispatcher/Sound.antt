-- ===== src/Dispatcher/Sound.antt =====
-- `handleText`, `handleImage` and `Dispatch` as wholes.
use thclaws_thai_ai_agent.Base.{
  String, ◌≡◌, refl, Option, none, some, List, ◌∷◌, ◌⊎◌, inl, inr, Bool-cases, str_eq,
}
use thclaws_thai_ai_agent.Base.Text.{is_empty}
use thclaws_thai_ai_agent.Ledger.Tables.{Db}
use thclaws_thai_ai_agent.Ledger.Books.{On, IsSound}
use thclaws_thai_ai_agent.Ledger.Books.Kept.{create_personal_transaction-IsSound}
use thclaws_thai_ai_agent.Ledger.Books.Beside.{
  SameBooks-On, create_project-SameBooks, create_household_transaction-SameBooks,
}
use thclaws_thai_ai_agent.Ledger.Business.Booked.{create_business_transaction-IsSound}
use thclaws_thai_ai_agent.Memory.Store.{AgentSession}
use thclaws_thai_ai_agent.Dispatcher.Chat.{
  Reply, Chat, Outcome, delivered, refused, Identity, Service, Asker, return, ◌>>=◌, now,
}
use thclaws_thai_ai_agent.Dispatcher.Image.{Naming, Ended}
use thclaws_thai_ai_agent.Dispatcher.Event.{
  Event, Resolved, known, unknown_user, broken, touch, start_session, note_text, handle_text,
  handle_image, budget_exceeded, for_user, dispatch,
}
use thclaws_thai_ai_agent.Dispatcher.Does.{
  Does, Told, answer, silent, ended_answer, Does-return, Does-on_memory, Does-bind, Does-close,
  Does-deliver,
}
use thclaws_thai_ai_agent.Dispatcher.Silent.{save_message-Does, log_event-Does}
use thclaws_thai_ai_agent.Dispatcher.Handled.{IsFollowed}
use thclaws_thai_ai_agent.Dispatcher.Handled.Looked.{answer_image-Does}
use thclaws_thai_ai_agent.Dispatcher.Handled.Answered.{answer_text-Does}
use thclaws_thai_ai_agent.Dispatcher.Handled.Chatted.{enqueue_memory_jobs-Does}

-- The user for whom an event is handled, "" for nobody.
unfoldable pub user_of : Resolved → String
user_of (known id) = id.user_id
user_of unknown_user = ""
user_of broken = ""

module _ {R : String → Db → Db → Type 0} (f : IsFollowed R) where
  start_session-Does :
      (id : Identity) (intent : String) → Does (R id.user_id) silent (start_session id intent)
  unfolding start_session
  start_session-Does id intent = Does-bind (f.order _) (Does-on_memory (f.order _) _) (λ p.
      Does-bind (f.order _) (Does-on_memory (f.order _) _) (λ s. Does-return (f.order _) _ refl))

  note_text-Does :
      (svc : Service) (who : Asker) (line_user_id content : String)
      → Does (R who.identity.user_id) silent (note_text svc who line_user_id content)
  unfolding note_text
  note_text-Does svc who line_user_id content =
      Does-bind (f.order _) (save_message-Does (f.order _) who _ _ _) (λ u.
        Does-bind (f.order _) (log_event-Does (f.order _) who _ _ _ _)
          (λ v. enqueue_memory_jobs-Does (f.order _) svc who content))

  touch-Does :
      (id : Identity) (s : Option AgentSession) (r : Ended)
      → Does (R id.user_id) silent (touch id s r)
  touch-Does id none (o, intent) = Does-return (f.order _) o refl
  touch-Does id (some s) (o, intent) =
      Does-bind (f.order _) (Does-on_memory (f.order _) _) (λ r. Does-return (f.order _) o refl)

  touch-answer :
      (id : Identity) (s : Option AgentSession) (r : Ended) (c : Chat)
      → answer (touch id s r c).0 ≡ ended_answer r
  unfolding return ◌>>=◌
  touch-answer id none (o, intent) c = refl
  touch-answer id (some s) (o, intent) c = refl

  pub handle_text-Does :
      (svc : Service) (id : Identity) (line_user_id message_id content : String)
      → Does (R id.user_id) answer (handle_text svc id line_user_id message_id content)
  unfolding handle_text
  handle_text-Does svc id line_user_id message_id content =
      Does-bind (f.order _) (start_session-Does id _) (λ s.
        Does-bind (f.order _) (note_text-Does svc _ line_user_id _) (λ u.
          Does-close (f.order _) (touch id s) (answer_text-Does f svc _ line_user_id message_id _)
            (touch-Does id s) (touch-answer id s)))

  pub handle_image-Does :
      (naming : Naming) (svc : Service) (id : Identity) (message_id : String)
      → Does (R id.user_id) answer (handle_image naming svc id message_id)
  unfolding handle_image
  handle_image-Does naming svc id message_id = Does-bind (f.order _) (start_session-Does id _) (λ s.
      Does-close (f.order _) (touch id s) (answer_image-Does (f.order _) naming svc _ message_id)
        (touch-Does id s) (touch-answer id s))

  for_user-moved :
      (naming : Naming) (svc : Service) (e : Event) (r : Resolved) (c : Chat)
      → R (user_of r) c.books.db (for_user naming svc e r c).1.books.db
  unfolding return user_of
  for_user-moved naming svc e (known id) c = elim (Bool-cases (str_eq e.message_type "image")) [
    | inl i ↦ rw i ((handle_image-Does naming svc id e.message_id).moved c)
    | inr n ↦ elim (Bool-cases (str_eq e.message_type "text")) [
      | inl t ↦ rw (n, t) ((handle_text-Does svc id e.line_user_id e.message_id e.content).moved c)
      | inr u ↦ rw (n, u) ((f.order _).same _)
    ]
  ]
  for_user-moved naming svc e unknown_user c = (Does-deliver (f.order _) _).moved c
  for_user-moved naming svc e broken c = (f.order _).same _

  pub dispatch-moved :
      (naming : Naming) (svc : Service) (resolve : String → Resolved) (e : Event) (c : Chat)
      → R (user_of (resolve e.line_user_id)) c.books.db (dispatch naming svc resolve e c).1.books.db
  unfolding dispatch ◌>>=◌ return now
  dispatch-moved naming svc resolve e c = elim (Bool-cases (is_empty e.reply_token)) [
    | inl i ↦ rw i ((f.order _).same _)
    | inr n ↦ elim (Bool-cases (budget_exceeded svc e.received_at c.books.clock)) [
      | inl b ↦ rw (n, b) ((Does-deliver (f.order _) _).moved c)
      | inr b ↦ rw (n, b) (for_user-moved naming svc e (resolve e.line_user_id) c)
    ]
  ]

SoundAfter : Db → Db → Type 0
SoundAfter s t = On IsSound s → On IsSound t

books_stay_sound : IsFollowed (λ u. SoundAfter)
unfolding SoundAfter
books_stay_sound = record {
  order = λ u. record { same = λ s h. h; then_to = λ s t u h k p. k (h p) };
  personal = λ tx. record { after = create_personal_transaction-IsSound tx };
  project =
      λ p. record { after = λ w. SameBooks-On IsSound _ _ ((create_project-SameBooks p).after w) };
  household = λ u h i. record {
    after = λ w. SameBooks-On IsSound _ _ ((create_household_transaction-SameBooks u h i).after w);
  };
  business = λ u b i. record { after = create_business_transaction-IsSound u b i };
}

-- Whatever event LINE sends, whatever the user, the models and the stores outside answer, and
-- whichever calls of the databases, of LINE and of the queue fail: if the books of the ledger are
-- sound, they are sound after `Dispatch`.
pub dispatch-IsSound :
    (naming : Naming) (svc : Service) (resolve : String → Resolved) (e : Event) (c : Chat)
    → On IsSound c.books.db
    → On IsSound (dispatch naming svc resolve e c).1.books.db
unfolding SoundAfter
dispatch-IsSound naming svc resolve e c = dispatch-moved books_stay_sound naming svc resolve e c

Told-cases :
    (o : Outcome) (before after : List Reply)
    → Told (some o) before after
    → ((o ≡ delivered) × ((r : Reply) × (after ≡ r ∷ before))) ⊎ ((o ≡ refused) × (after ≡ before))
unfolding Told
Told-cases delivered before after h = inl (refl, h)
Told-cases refused before after h = inr (refl, h)

-- `handleText` returns no error exactly when LINE has accepted one reply, and it never sends a
-- second one on the reply token, which can be used once: with an error LINE has accepted none.
pub handle_text_told_once :
    (svc : Service) (id : Identity) (line_user_id message_id content : String) (c : Chat)
    → (((handle_text svc id line_user_id message_id content c).0 ≡ delivered)
        × ((r : Reply) × ((handle_text svc id line_user_id message_id content c).1.sent
              ≡ r ∷ c.sent)))
      ⊎ (((handle_text svc id line_user_id message_id content c).0 ≡ refused)
          × ((handle_text svc id line_user_id message_id content c).1.sent ≡ c.sent))
handle_text_told_once svc id line_user_id message_id content c =
    Told-cases _ c.sent _
      ((handle_text-Does books_stay_sound svc id line_user_id message_id content).told c)

-- The same of `handleImage`: no error exactly when LINE has accepted one reply, and with an error
-- none.
pub handle_image_told_once :
    (naming : Naming) (svc : Service) (id : Identity) (message_id : String) (c : Chat)
    → (((handle_image naming svc id message_id c).0 ≡ delivered)
        × ((r : Reply) × ((handle_image naming svc id message_id c).1.sent ≡ r ∷ c.sent)))
      ⊎ (((handle_image naming svc id message_id c).0 ≡ refused)
          × ((handle_image naming svc id message_id c).1.sent ≡ c.sent))
handle_image_told_once naming svc id message_id c =
    Told-cases _ c.sent _ ((handle_image-Does books_stay_sound naming svc id message_id).told c)
