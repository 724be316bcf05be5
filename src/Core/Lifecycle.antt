-- ===== src/Core/Lifecycle.antt =====
-- The lifecycle states of each kind: `KIND_STATES`, `initial_state` and `valid_state` of
-- core/memory_model.py.
use nd_mind.Base.{String, Bool, List, [], ◌∷◌, any, str_eq}
use nd_mind.Core.Vocabulary.{Kind}

-- The first one is the initial state.
unfoldable pub kind_states : Kind → List String
kind_states Kind.fact = "current" ∷ "superseded" ∷ []
kind_states Kind.preference = "current" ∷ "superseded" ∷ []
kind_states Kind.episode = "happened" ∷ []
kind_states Kind.plan = "scheduled" ∷ "happened" ∷ "moved" ∷ "cancelled" ∷ []
kind_states Kind.task = "open" ∷ "done" ∷ "dropped" ∷ []
kind_states Kind.intention = "wanted" ∷ "active" ∷ "fulfilled" ∷ "dropped" ∷ []
kind_states Kind.resource = "saved" ∷ "consumed" ∷ []
kind_states Kind.note = "current" ∷ []
kind_states Kind.rule = "proposed" ∷ "active" ∷ "retired" ∷ []
kind_states Kind.pattern = "proposed" ∷ "confirmed" ∷ "retired" ∷ []

unfoldable pub valid_state : Kind → String → Bool
valid_state kind state = any (λ s. str_eq s state) (kind_states kind)
