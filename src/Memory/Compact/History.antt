-- ===== src/Memory/Compact/History.antt =====
-- `GetContext` before and after a compaction, of memory/service.go.
use thclaws_thai_ai_agent.Base.{
  ℕ, ◌-◌, String, Bool, true, false, ◌||◌, ◌≡◌, refl, sym, ◌∙◌, ap, subst, List, [], ◌∷◌, map,
  length, take, keep, not, arith, Bool-cases, inl, inr, ltb, str_eq, eq_iff,
}
use thclaws_thai_ai_agent.Sql.{ok, World, pure, writing, Stamp}
use thclaws_thai_ai_agent.Sql.Pooled.{after_pool}
use thclaws_thai_ai_agent.Memory.Store.{Message, MemorySummary, Store}
use thclaws_thai_ai_agent.Memory.Context.{newest, backwards, is_fresh, recent_messages}
use thclaws_thai_ai_agent.Memory.Compact.{
  CompactInput, fresh_messages, oldest, is_among, marked, mark_compacted, insert_summary,
  compact_messages, compact_oldest, compact_conversation_if_needed,
}
use thclaws_thai_ai_agent.Memory.Compact.Sorted.{drop, keep-newest}
use thclaws_thai_ai_agent.Memory.Compact.Beside.{
  IsUnique, IsUnique-keep, IsUnique-newest, beside, by_time, keep-beside, is_among-backwards,
  keep_same, keep-marked, take-take,
}
use thclaws_thai_ai_agent.Memory.Compact.Timed.{HasOwnTimes, oldest_lem}
use thclaws_thai_ai_agent.Memory.Compact.Others.{recent-other}

or_false : (b : Bool) → (b || false) ≡ b
or_false true = refl
or_false false = refl

beside-backwards : (xs : List Message) (m : Message) → beside (backwards xs []) m ≡ beside xs m
beside-backwards xs m =
    ap not (is_among-backwards m.id xs [] ∙ unfold is_among in or_false (is_among m.id xs))

-- Marking all but the last 12 leaves the last 12.
pub newest-marked :
    (tie : Message → Message → Bool) (namespace : String) (s : Store)
    → IsUnique s.messages
    → HasOwnTimes (fresh_messages namespace s)
    → newest by_time (
        fresh_messages namespace
          (mark_compacted (oldest tie namespace (length (fresh_messages namespace s) - 12) s) s))
      ≡ take 12 (newest by_time (fresh_messages namespace s))
unfolding mark_compacted
newest-marked tie namespace s u v =
    let sorted = newest by_time (fresh_messages namespace s) in
    rw (oldest_lem tie namespace s v) (
      ap (newest by_time) (keep-marked namespace (backwards (drop 12 sorted) []) s.messages)
      ∙ (sym (
            keep-newest by_time (beside (backwards (drop 12 sorted) []))
              (fresh_messages namespace s))
          ∙ (keep_same (beside (backwards (drop 12 sorted) [])) (beside (drop 12 sorted)) sorted
                (beside-backwards (drop 12 sorted))
              ∙ keep-beside 12 sorted (
                  IsUnique-newest (fresh_messages namespace s)
                    (IsUnique-keep (is_fresh namespace) s.messages u)))))

recent-mark :
    (tie : Message → Message → Bool) (namespace : String) (s : Store)
    → IsUnique s.messages
    → HasOwnTimes (fresh_messages namespace s)
    → recent_messages namespace
        (mark_compacted (oldest tie namespace (length (fresh_messages namespace s) - 12) s) s)
      ≡ recent_messages namespace s
unfolding recent_messages
recent-mark tie namespace s u v =
    ap (λ ms. backwards (take 12 ms) []) (newest-marked tie namespace s u v)
    ∙ ap (λ ms. backwards ms []) (take-take 12 (newest by_time (fresh_messages namespace s)))

-- The history of any conversation, after the compaction of one.
recent-any :
    (tie : Message → Message → Bool) (namespace other : String) (s : Store)
    → IsUnique s.messages
    → HasOwnTimes (fresh_messages namespace s)
    → recent_messages other
        (mark_compacted (oldest tie namespace (length (fresh_messages namespace s) - 12) s) s)
      ≡ recent_messages other s
recent-any tie namespace other s u v = elim (Bool-cases (str_eq namespace other)) [
  | inl h ↦
      subst
        (λ n.
          recent_messages n
            (mark_compacted (oldest tie namespace (length (fresh_messages namespace s) - 12) s) s)
          ≡ recent_messages n s)
        ((eq_iff namespace other).0 h) (recent-mark tie namespace s u v)
  | inr h ↦ recent-other tie namespace other _ s h u
]

recent_same :
    (namespace : String) (s t : Store)
    → t.messages ≡ s.messages
    → recent_messages namespace t ≡ recent_messages namespace s
unfolding recent_messages
recent_same namespace s t e =
    ap (λ ms. backwards (take 12 (newest by_time (keep (is_fresh namespace) ms))) []) e

module _ (input : CompactInput) where
  pub inserted :
      (m : Message) (ms : List Message) (st : Stamp) (s : Store) (a : MemorySummary) (t : Store)
      → insert_summary input m ms st s ≡ ok (a, t)
      → t.messages ≡ s.messages
  unfolding insert_summary
  inserted m ms st s a t e = ground arith

  pub was_marked :
      (ms : List Message) (st : Stamp) (s : Store) (a : Unit) (t : Store)
      → writing (λ _. mark_compacted ms) st s ≡ ok (a, t)
      → t.messages ≡ (mark_compacted ms s).messages
  was_marked ms st s a t e = ground arith

  pub marked_messages :
      (ms : List Message) (s t : Store)
      → t.messages ≡ s.messages
      → (mark_compacted ms t).messages ≡ (mark_compacted ms s).messages
  unfolding mark_compacted
  marked_messages ms s t e = ap (map (marked ms)) e

module _ (tie : Message → Message → Bool) (input : CompactInput) (namespace : String) where
  messages_keep :
      (ms : List Message) (s : Store) (w : World Store)
      → w.db ≡ s
      → recent_messages namespace (mark_compacted ms s) ≡ recent_messages namespace s
      → recent_messages namespace (compact_messages input ms w).1.db ≡ recent_messages namespace s
  unfolding compact_messages pure
  messages_keep [] s w e h = ap (recent_messages namespace) e
  messages_keep (m ∷ ms) s w e h =
      let P : Store → Type 0 = λ t. recent_messages namespace t ≡ recent_messages namespace s in
      after_pool P _ _ _ w (ap (recent_messages namespace) e) λ st a t v q f.
        let same : v.db.messages ≡ s.messages =
          ap (λ x. x.messages) f ∙ (inserted input m ms st w.db a t q ∙ ap (λ x. x.messages) e) in
        after_pool P _ _ _ v (recent_same namespace s v.db same) λ st a u x r g.
          recent_same namespace (mark_compacted (m ∷ ms) s) x.db (
            ap (λ y. y.messages) g
            ∙ (was_marked input (m ∷ ms) st v.db a u r
                ∙ marked_messages input (m ∷ ms) s v.db same))
          ∙ h

  oldest_keep :
      (count : ℕ) (w : World Store)
      → IsUnique w.db.messages
      → HasOwnTimes (fresh_messages input.namespace w.db)
      → length (fresh_messages input.namespace w.db) ≡ count
      → recent_messages namespace (compact_oldest tie input count w).1.db
        ≡ recent_messages namespace w.db
  unfolding compact_oldest pure
  oldest_keep count w u o c = elim (Bool-cases (ltb count 40)) [
    | inl b ↦ rw b refl
    | inr b ↦ rw b (
        after_pool (λ t. recent_messages namespace t ≡ recent_messages namespace w.db) _ _ _ w refl
          λ st ms t v q f.
            let found : (oldest tie input.namespace (count - 12) w.db ≡ ms) × (w.db ≡ t) =
              ground arith in
            messages_keep ms w.db v (f ∙ sym found.1) (
              subst
                (λ xs.
                  recent_messages namespace (mark_compacted xs w.db)
                  ≡ recent_messages namespace w.db)
                (ap (λ n. oldest tie input.namespace (n - 12) w.db) c ∙ found.0)
                (recent-any tie input.namespace namespace w.db u o)))
  ]

-- What `GetContext` reads as the history of any conversation is the same after
-- `CompactConversationIfNeeded` of one, whichever call fails and whether or not there was something
-- to compact, and whatever order MongoDB gives to messages with the same time, when no two messages
-- have the same id and, in the conversation that is compacted, no two of the messages that were not
-- compacted before have the same time.
pub compact_keeps_history :
    (tie : Message → Message → Bool) (input : CompactInput) (namespace : String) (w : World Store)
    → IsUnique w.db.messages
    → HasOwnTimes (fresh_messages input.namespace w.db)
    → recent_messages namespace (compact_conversation_if_needed tie input w).1.db
      ≡ recent_messages namespace w.db
unfolding compact_conversation_if_needed
compact_keeps_history tie input namespace w u o =
    after_pool (λ t. recent_messages namespace t ≡ recent_messages namespace w.db) _ _ _ w refl
      λ st count t v q f.
        let found : (length (fresh_messages input.namespace w.db) ≡ count) × (w.db ≡ t) =
          ground arith in
        let same : w.db ≡ v.db = found.1 ∙ sym f in
        oldest_keep tie input namespace count v (subst (λ s. IsUnique s.messages) same u)
          (subst (λ s. HasOwnTimes (fresh_messages input.namespace s)) same o)
          (subst (λ s. length (fresh_messages input.namespace s) ≡ count) same found.0)
        ∙ ap (recent_messages namespace) (sym same)
