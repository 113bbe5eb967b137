-- ===== src/Memory/Compact/Tail.antt =====
-- The conversation and its summary after a compaction, of memory/service.go.
use thclaws_thai_ai_agent.Base.{
  Bool, map, ℕ, ◌-◌, String, false, ◌≡◌, refl, sym, ◌∙◌, ap, List, [], ◌∷◌, length, take, keep,
  arith, Bool-cases, inl, inr, ltb, zero, suc, ◌≤◌, ◌+◌, some, Option,
}
use thclaws_thai_ai_agent.Sql.{Error, ok, World, pure, Result, SqlError, Stamp}
use thclaws_thai_ai_agent.Sql.Pooled.{Pooled, Pooled-bind, Pooled-on_pool, Pooled-reading}
use thclaws_thai_ai_agent.Memory.Store.{Message, MemorySummary, Store}
use thclaws_thai_ai_agent.Memory.Context.{is_fresh}
use thclaws_thai_ai_agent.Memory.Compact.{
  by_age, marked, CompactInput, fresh_messages, oldest, mark_compacted, insert_summary,
  compact_messages, compact_oldest, compact_conversation_if_needed,
}
use thclaws_thai_ai_agent.Memory.Compact.Sorted.{drop, length-drop}
use thclaws_thai_ai_agent.Memory.Compact.Beside.{IsUnique, IsUnique-keep, beside, keep-marked}
use thclaws_thai_ai_agent.Memory.Compact.Aged.{
  length-by_age, length-keep-by_age, IsUnique-by_age, keep-beside-take,
}
use thclaws_thai_ai_agent.Memory.Compact.History.{inserted, was_marked, marked_messages}

length-take : {A : Type 0} (n : ℕ) (xs : List A) → n ≤ length xs → length (take n xs) ≡ n
length-take zero xs h = refl
length-take (suc n) [] h = absurd (ground arith)
length-take (suc n) (x ∷ xs) h = ap (λ k. suc k) (length-take n xs (ground arith))

length-oldest :
    (tie : Message → Message → Bool) (namespace : String) (s : Store)
    → length (oldest tie namespace (length (fresh_messages namespace s) - 12) s)
      ≡ length (fresh_messages namespace s) - 12
unfolding oldest
length-oldest tie namespace s =
    length-take (length (fresh_messages namespace s) - 12) (by_age tie (fresh_messages namespace s))
      (omega (arith, length-by_age tie (fresh_messages namespace s)))

length-marked :
    (tie : Message → Message → Bool) (namespace : String) (s : Store)
    → IsUnique s.messages
    → 12 ≤ length (fresh_messages namespace s)
    → length (
        fresh_messages namespace
          (mark_compacted (oldest tie namespace (length (fresh_messages namespace s) - 12) s) s))
      ≡ 12
unfolding mark_compacted oldest
length-marked tie namespace s u h =
    let all = fresh_messages namespace s in
    let kept : length (
          keep (is_fresh namespace)
            (map (marked (take (length all - 12) (by_age tie all))) s.messages))
        ≡ length (drop (length all - 12) (by_age tie all)) =
      ap length (keep-marked namespace (take (length all - 12) (by_age tie all)) s.messages)
      ∙ (sym (length-keep-by_age tie (beside (take (length all - 12) (by_age tie all))) all)
          ∙ ap length (
              keep-beside-take (length all - 12) (by_age tie all)
                (IsUnique-by_age tie all (IsUnique-keep (is_fresh namespace) s.messages u)))) in
    omega (arith, h, kept, length-drop (length all - 12) (by_age tie all), length-by_age tie all)

unwrap : {A : Type 0} {a b : A} → ◌≡◌ {A = Result SqlError A} (ok a) (ok b) → a ≡ b
unwrap e = cc

-- The last 12 messages are left, and the summary counts the others.
Tail : String → Store → Option MemorySummary → Store → Type 0
Tail namespace before a s =
    (summary : MemorySummary)
    → a ≡ some summary
    → (length (fresh_messages namespace s) ≡ 12)
      × (summary.message_count + 12 ≡ length (fresh_messages namespace before))

module _ (tie : Message → Message → Bool) (input : CompactInput) (before : Store)
    (u : IsUnique before.messages) where
  Inserted : List Message → MemorySummary → Store → Type 0
  Inserted ms a s = (s.messages ≡ before.messages) × (a.message_count ≡ length ms)

  insert_summary-Inserted :
      (m : Message) (ms : List Message) (st : Stamp) (s : Store) (a : MemorySummary) (t : Store)
      → s ≡ before
      → insert_summary input m ms st s ≡ ok (a, t)
      → Inserted (m ∷ ms) a t
  unfolding insert_summary Inserted
  insert_summary-Inserted m ms st s a t p q =
      (inserted input m ms st s a t q ∙ ap (λ x. x.messages) p, ground arith)

  Pooled-messages :
      (ms : List Message)
      → 40 ≤ length (fresh_messages input.namespace before)
      → oldest tie input.namespace (length (fresh_messages input.namespace before) - 12) before ≡ ms
      → Pooled (λ s. s ≡ before) (compact_messages input ms) (Tail input.namespace before)
  unfolding compact_messages pure Tail Inserted
  Pooled-messages [] h e = record { after = λ w a p r summary f. cc }
  Pooled-messages (m ∷ ms) h e =
      Pooled-bind (Pooled-on_pool {Q = Inserted (m ∷ ms)} _ _ (insert_summary-Inserted m ms)) λ a.
        Pooled-bind
          (Pooled-on_pool
            {Q = λ _ s.
              (s.messages ≡ (mark_compacted (m ∷ ms) before).messages)
              × (a.message_count ≡ length (m ∷ ms))}
            _ _
            λ st s b t p q. (
              was_marked input (m ∷ ms) st s b t q ∙ marked_messages input (m ∷ ms) before s p.0,
              p.1,
            ))
          λ _. record {
            after = λ w b p r summary f. (
              ap (λ xs. length (keep (is_fresh input.namespace) xs)) p.0
                  ∙ (ap (λ xs. length (fresh_messages input.namespace (mark_compacted xs before)))
                        (sym e)
                      ∙ length-marked tie input.namespace before u (ground arith)),
              omega (
                arith,
                h,
                ap (λ (x : MemorySummary). x.message_count) (made w r f),
                p.1,
                ap length e,
                length-oldest tie input.namespace before,
              ),
            );
          }
    where
      made :
          {a summary : MemorySummary} {b : Option MemorySummary} (w : World Store)
          → (pure {S = Store} {E = Error} (some a) w).0 ≡ ok b
          → b ≡ some summary
          → a ≡ summary
      made w r f = unfold pure in grind arith

  Pooled-oldest :
      (count : ℕ)
      → Pooled
          (λ s. (s ≡ before) × (length (fresh_messages input.namespace s) ≡ count))
          (compact_oldest tie input count)
          (Tail input.namespace before)
  unfolding compact_oldest pure Tail
  Pooled-oldest count = elim (Bool-cases (ltb count 40)) [
    | inl b ↦ rw b (record { after = λ w a p r summary f. cc })
    | inr b ↦ rw b (
        Pooled-bind (Pooled-reading _ λ s. ok (oldest tie input.namespace (count - 12) s)) λ ms.
          record {
            after = λ w a p r.
                let size : length (fresh_messages input.namespace before) ≡ count =
                  ap (λ s. length (fresh_messages input.namespace s)) (sym p.0.0) ∙ p.0.1 in
                (Pooled-messages ms (enough count b size) (
                    ap (λ n. oldest tie input.namespace (n - 12) before) size
                    ∙ (ap (oldest tie input.namespace (count - 12)) (sym p.0.0)
                        ∙ unwrap p.1))).after
                  w a p.0.0 r;
          })
  ]
    where
      enough :
          (count : ℕ)
          → ltb count 40 ≡ false
          → length (fresh_messages input.namespace before) ≡ count
          → 40 ≤ length (fresh_messages input.namespace before)
      enough count b size = ground arith

-- When `CompactConversationIfNeeded` returns a summary, 12 messages of the conversation are left that
-- are not compacted, and the summary counts all the others, if no two messages have the same id,
-- whatever order MongoDB gives to messages with the same time.
pub compact_leaves_tail :
    (tie : Message → Message → Bool) (input : CompactInput) (w : World Store)
    (summary : MemorySummary)
    → IsUnique w.db.messages
    → (compact_conversation_if_needed tie input w).0 ≡ ok (some summary)
    → (length (fresh_messages input.namespace (compact_conversation_if_needed tie input w).1.db)
        ≡ 12)
      × (summary.message_count + 12 ≡ length (fresh_messages input.namespace w.db))
unfolding compact_conversation_if_needed Tail
compact_leaves_tail tie input w summary u e =
    (Pooled-bind {R = Tail input.namespace w.db}
        (Pooled-reading {P = λ s. s ≡ w.db} _ λ s. ok (length (fresh_messages input.namespace s)))
        λ count. record {
          after = λ v a p r. (Pooled-oldest tie input w.db u count).after v a (p.0, unwrap p.1) r;
        }).after
      w (some summary) refl e summary refl
