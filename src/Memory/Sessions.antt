-- ===== src/Memory/Sessions.antt =====
-- Agent sessions and profiles of memory/service.go.
use thclaws_thai_ai_agent.Base.{◌+◌, String, Bool, ◌&&◌, str_eq, if◌then◌else◌}
use thclaws_thai_ai_agent.Base.Text.{is_empty, trim_space}
use thclaws_thai_ai_agent.Sql.{Error, ok, Stamp, Query, M, guard, on_pool, wrap, writing, ◌>>◌}
use thclaws_thai_ai_agent.Memory.Store.{
  AgentSession, AgentProfile, Store, update_one, upsert, upserted,
}

-- `EnsureAgentSessionInput`
pub record SessionInput : Type 0 where
  pub owner_id : String
  pub agent_id : String
  pub namespace : String
  pub runtime : String
  pub model : String
  pub last_intent : String

abbrev is_session : String → String → AgentSession → Bool
is_session namespace runtime x = str_eq x.namespace namespace && str_eq x.runtime runtime

abbrev model_or_default : String → String
model_or_default m = if is_empty (trim_space m) then "sml/auto" else trim_space m

abbrev intent_or : String → String → String
intent_or intent last = if is_empty (trim_space intent) then last else trim_space intent

-- The `$set` of `EnsureAgentSession`
abbrev set_session : SessionInput → AgentSession → AgentSession
set_session input x = record x {
  owner_id = input.owner_id;
  agent_id = input.agent_id;
  namespace = input.namespace;
  runtime = trim_space input.runtime;
  model = model_or_default input.model;
  last_intent = intent_or input.last_intent x.last_intent;
}

abbrev new_session : SessionInput → String → AgentSession
new_session input id = record {
  id = id;
  owner_id = input.owner_id;
  agent_id = input.agent_id;
  namespace = input.namespace;
  runtime = trim_space input.runtime;
  model = model_or_default input.model;
  last_intent = intent_or input.last_intent "";
  turn_count = 0;
}

unfoldable pub resume_session : SessionInput → Query Store AgentSession
resume_session input st s =
    let found = is_session input.namespace (trim_space input.runtime) in
    ok (
      upserted found (set_session input) (new_session input st.id) s.sessions,
      record s { sessions = upsert found (set_session input) (new_session input st.id) s.sessions },
    )

-- `EnsureAgentSession`
unfoldable pub ensure_agent_session : SessionInput → M Store Error AgentSession
ensure_agent_session input = do
  guard (is_empty (trim_space input.namespace)) "memory: EnsureAgentSession: namespace is empty"
  guard (is_empty (trim_space input.runtime)) "memory: EnsureAgentSession: runtime is empty"
  wrap "memory: EnsureAgentSession" (on_pool (resume_session input))

unfoldable pub count_turn : String → String → String → Stamp → Store → Store
count_turn namespace runtime intent st s = record s {
  sessions =
      update_one (is_session namespace (trim_space runtime))
        (λ (x : AgentSession). record x {
          last_intent = intent_or intent x.last_intent;
          turn_count = x.turn_count + 1;
        })
        s.sessions;
}

-- `TouchAgentSession`
unfoldable pub touch_agent_session : String → String → String → M Store Error (Unit {0})
touch_agent_session namespace runtime intent = do
  guard (is_empty (trim_space namespace)) "memory: TouchAgentSession: namespace is empty"
  guard (is_empty (trim_space runtime)) "memory: TouchAgentSession: runtime is empty"
  wrap "memory: TouchAgentSession" (on_pool (writing (count_turn namespace runtime intent)))

unfoldable pub put_profile : String → String → Query Store AgentProfile
put_profile agent_id namespace st s =
    let new : AgentProfile = record { agent_id = agent_id; namespace = namespace } in
    let found = λ (p : AgentProfile). str_eq p.agent_id agent_id in
    ok (
      upserted found (λ p. p) new s.profiles,
      record s { profiles = upsert found (λ p. p) new s.profiles },
    )

-- `EnsureAgentProfile`
unfoldable pub ensure_agent_profile : String → String → M Store Error AgentProfile
ensure_agent_profile agent_id namespace =
    wrap "memory: EnsureAgentProfile" (on_pool (put_profile agent_id namespace))
