-- ===== src/Dispatcher/Does.antt =====
-- What an action of a chat handler does to the ledger's tables, as a relation, and to what LINE has
-- accepted: one reply more where the handler returns no error, and no other.
use thclaws_thai_ai_agent.Base.{
  String, Bool, true, false, ◌≡◌, refl, sym, ◌∙◌, subst, Option, none, some, List, ◌∷◌,
  if◌then◌else◌,
}
use thclaws_thai_ai_agent.Sql.{Error, M}
use thclaws_thai_ai_agent.Sql.Quiet.{Quiet}
use thclaws_thai_ai_agent.Sql.Pooled.{Steps, Steps-Quiet}
use thclaws_thai_ai_agent.Ledger.Tables.{Db}
use thclaws_thai_ai_agent.Memory.Store.{Store}
use thclaws_thai_ai_agent.Dispatcher.Chat.{
  Reply, Job, Outcome, delivered, refused, Chat, C, return, ◌>>=◌, now, deliver, enqueue, on_books,
  on_memory, take_fault, settle, queued,
}

-- The replies before and after: `none` stands for an action that is no answer.
unfoldable pub Told : Option Outcome → List Reply → List Reply → Type 0
Told none before after = after ≡ before
Told (some refused) before after = after ≡ before
Told (some delivered) before after = (r : Reply) × (after ≡ r ∷ before)

pub record IsPreorder (R : Db → Db → Type 0) : Type 0 where
  pub same : (s : Db) → R s s
  pub then_to : (s t u : Db) → R s t → R t u → R s u

module _ {A : Type 0} where
  pub record Does (R : Db → Db → Type 0) (out : A → Option Outcome) (m : C A) : Type 0 where
    pub moved : (c : Chat) → R c.books.db (m c).1.books.db
    pub told : (c : Chat) → Told (out (m c).0) c.sent (m c).1.sent

  -- An action that is no answer.
  abbrev pub silent : A → Option Outcome
  silent a = none

-- The answers of the handlers: with an intent, or as what is handled.
abbrev pub answer : Outcome → Option Outcome
answer o = some o

abbrev pub ended_answer : Outcome × String → Option Outcome
ended_answer (o, intent) = some o

abbrev pub handled_answer : Option Outcome → Option Outcome
handled_answer o = o

queued-Told : (j : Job) (f : Bool) (c : Chat) → Told none c.sent (queued j f c).1.sent
unfolding Told
queued-Told j true c = refl
queued-Told j false c = refl

settle-Told :
    (r : Reply) (f : Bool) (c : Chat) → Told (some (settle r f c).0) c.sent (settle r f c).1.sent
unfolding Told
settle-Told r true c = refl
settle-Told r false c = (r, refl)

module _ {R : Db → Db → Type 0} (pre : IsPreorder R) where
  module _ {A : Type 0} where
    pub Does-return : {out : A → Option Outcome} (a : A) → out a ≡ none → Does R out (return a)
    unfolding return Told
    Does-return a h = record { moved = λ c. pre.same _; told = λ c. rw h refl }

    pub Does-on_memory : (m : M Store Error A) → Does R silent (on_memory m)
    unfolding on_memory Told
    Does-on_memory m = record { moved = λ c. pre.same _; told = λ c. refl }

    pub Does-on_books : {m : M Db Error A} → Steps R m → Does R silent (on_books m)
    unfolding on_books Told
    Does-on_books h = record { moved = λ c. h.after c.books; told = λ c. refl }

    -- A read of the ledger.
    pub Does-read : {m : M Db Error A} → Quiet m → Does R silent (on_books m)
    Does-read q = Does-on_books (Steps-Quiet pre.same q)

  module _ {A B : Type 0} where
    pub Does-bind :
        {out : B → Option Outcome} {m : C A} {f : A → C B}
        → Does R silent m
        → ((a : A) → Does R out (f a))
        → Does R out (m >>= f)
    unfolding ◌>>=◌ Told
    Does-bind {out} {m} {f} hm hf = record {
      moved = λ c. pre.then_to _ _ _ (hm.moved c) ((hf (m c).0).moved (m c).1);
      told = λ c.
          subst (λ s. Told (out (f (m c).0 (m c).1).0) s (f (m c).0 (m c).1).1.sent) (hm.told c)
            ((hf (m c).0).told (m c).1);
    }

    -- The answer is passed on under another form.
    pub Does-map :
        {out : A → Option Outcome} {out' : B → Option Outcome} {m : C A} (g : A → B)
        → Does R out m
        → ((a : A) → out' (g a) ≡ out a)
        → Does R out' (m >>= λ a. return (g a))
    unfolding ◌>>=◌ return
    Does-map {out} {out'} {m} g h e = record {
      moved = h.moved;
      told = λ c. subst (λ o. Told o c.sent (m c).1.sent) (sym (e (m c).0)) (h.told c);
    }

    -- What follows is no answer, and passes the answer on.
    pub Does-close :
        {out : A → Option Outcome} {out' : B → Option Outcome} {m : C A} (g : A → C B)
        → Does R out m
        → ((a : A) → Does R silent (g a))
        → ((a : A) (c : Chat) → out' (g a c).0 ≡ out a)
        → Does R out' (m >>= g)
    unfolding ◌>>=◌ Told
    Does-close {out} {out'} {m} g h k e = record {
      moved = λ c. pre.then_to _ _ _ (h.moved c) ((k (m c).0).moved (m c).1);
      told = λ c.
          rw (e (m c).0 (m c).1)
            (subst (λ s. Told (out (m c).0) c.sent s) (sym ((k (m c).0).told (m c).1)) (h.told c));
    }

  pub Does-now : Does R silent now
  unfolding now Told
  Does-now = record { moved = λ c. pre.same _; told = λ c. refl }

  queued-moved : (j : Job) (f : Bool) (c : Chat) → R c.books.db (queued j f c).1.books.db
  queued-moved j true c = pre.same _
  queued-moved j false c = pre.same _

  pub Does-enqueue : (j : Job) → Does R silent (enqueue j)
  unfolding enqueue
  Does-enqueue j = record {
    moved = λ c.
        let (fault, left) = take_fault c.queue_faults in
        queued-moved j fault (record c { queue_faults = left });
    told = λ c.
        let (fault, left) = take_fault c.queue_faults in
        queued-Told j fault (record c { queue_faults = left });
  }

  settle-moved : (r : Reply) (f : Bool) (c : Chat) → R c.books.db (settle r f c).1.books.db
  settle-moved r true c = pre.same _
  settle-moved r false c = pre.same _

  pub Does-deliver : (r : Reply) → Does R answer (deliver r)
  unfolding deliver
  Does-deliver r = record {
    moved = λ c.
        let (fault, left) = take_fault c.line_faults in
        settle-moved r fault (record c { line_faults = left });
    told = λ c.
        let (fault, left) = take_fault c.line_faults in
        settle-Told r fault (record c { line_faults = left });
  }

module _ {R : Db → Db → Type 0} {A : Type 0} {out : A → Option Outcome} where
  pub Does-if :
      (b : Bool) {m n : C A} → Does R out m → Does R out n → Does R out (if b then m else n)
  Does-if true hm hn = hm
  Does-if false hm hn = hn

-- What is done after LINE accepted a reply: no further one, and no error.
pub record Follows (R : Db → Db → Type 0) (m : C Outcome) : Type 0 where
  pub quiet : Does R silent m
  pub result : (c : Chat) → (m c).0 ≡ delivered

module _ {R : Db → Db → Type 0} (pre : IsPreorder R) where
  pub Does-refuse : Does R answer (return refused)
  unfolding return Told
  Does-refuse = record { moved = λ c. pre.same _; told = λ c. refl }

  pub Follows-return : Follows R (return delivered)
  unfolding return Told
  Follows-return = record {
    quiet = record { moved = λ c. pre.same _; told = λ c. refl };
    result = λ c. refl;
  }

  pub Follows-bind :
      {A : Type 0} {m : C A} {f : A → C Outcome}
      → Does R silent m
      → ((a : A) → Follows R (f a))
      → Follows R (m >>= f)
  unfolding ◌>>=◌
  Follows-bind {m} {f} hm hf = record {
    quiet = Does-bind pre hm (λ a. (hf a).quiet);
    result = λ c. (hf (m c).0).result (m c).1;
  }

  sent_on :
      (f : Outcome → C Outcome)
      → Does R answer (f refused)
      → Follows R (f delivered)
      → (o : Outcome) (before : List Reply) (c : Chat) → Told (some o) before c.sent
      → Told (some (f o c).0) before (f o c).1.sent
  unfolding Told
  sent_on f hr hd refused before c h =
      subst (λ s. Told (some (f refused c).0) s (f refused c).1.sent) h (hr.told c)
  sent_on f hr hd delivered before c (r, h) =
      subst (λ o. Told (some o) before (f delivered c).1.sent) (sym (hd.result c))
        (r, hd.quiet.told c ∙ h)

  sent_moved :
      (f : Outcome → C Outcome)
      → Does R answer (f refused)
      → Follows R (f delivered)
      → (o : Outcome) (c : Chat) → R c.books.db (f o c).1.books.db
  sent_moved f hr hd refused c = hr.moved c
  sent_moved f hr hd delivered c = hd.quiet.moved c

  -- A reply, and what follows it in either case.
  pub Does-send :
      {m : C Outcome} (f : Outcome → C Outcome)
      → Does R answer m
      → Does R answer (f refused)
      → Follows R (f delivered)
      → Does R answer (m >>= f)
  unfolding ◌>>=◌
  Does-send {m} f hm hr hd = record {
    moved = λ c. pre.then_to _ _ _ (hm.moved c) (sent_moved f hr hd (m c).0 (m c).1);
    told = λ c. sent_on f hr hd (m c).0 c.sent (m c).1 (hm.told c);
  }
