-- ===== src/Domain/OperationState/Defs.antt =====
-- src/domain/operation-state.ts: the states, the table of transitions and its guards.
use institutional_tokenizati.Base.{◌≡◌, Bool, true, false, List, [], ◌∷◌, ◌↔◌, any, arith}

pub data OperationState : Type 0 where
  pending_approval ready preparing signing signed broadcasting : OperationState
  broadcast_unknown submitted included succeeded reverted failed cancelled : OperationState

unfoldable pub state_eq : OperationState → OperationState → Bool
state_eq pending_approval pending_approval = true
state_eq ready ready = true
state_eq preparing preparing = true
state_eq signing signing = true
state_eq signed signed = true
state_eq broadcasting broadcasting = true
state_eq broadcast_unknown broadcast_unknown = true
state_eq submitted submitted = true
state_eq included included = true
state_eq succeeded succeeded = true
state_eq reverted reverted = true
state_eq failed failed = true
state_eq cancelled cancelled = true
state_eq _ _ = false

-- `states.includes(state)`
unfoldable pub includes_state : List OperationState → OperationState → Bool
unfolding state_eq
includes_state states state = any (state_eq state) states

-- OPERATION_STATES
abbrev pub operation_states : List OperationState
operation_states =
    pending_approval ∷ ready ∷ preparing ∷ signing ∷ signed ∷ broadcasting ∷ broadcast_unknown
    ∷ submitted ∷ included ∷ succeeded ∷ reverted ∷ failed ∷ cancelled ∷ []

abbrev pub terminal_operation_states : List OperationState
terminal_operation_states = succeeded ∷ reverted ∷ failed ∷ cancelled ∷ []

abbrev pub chain_inflight_states : List OperationState
chain_inflight_states = broadcasting ∷ broadcast_unknown ∷ submitted ∷ included ∷ []

-- ALLOWED_TRANSITIONS, and `allowedOperationTransitions`
unfoldable pub allowed_transitions : OperationState → List OperationState
allowed_transitions pending_approval = ready ∷ cancelled ∷ failed ∷ []
allowed_transitions ready = preparing ∷ cancelled ∷ failed ∷ []
allowed_transitions preparing = signing ∷ ready ∷ failed ∷ []
allowed_transitions signing = signed ∷ failed ∷ []
allowed_transitions signed = broadcasting ∷ failed ∷ []
allowed_transitions broadcasting = submitted ∷ broadcast_unknown ∷ failed ∷ []
allowed_transitions broadcast_unknown = broadcasting ∷ submitted ∷ included ∷ failed ∷ []
allowed_transitions submitted = included ∷ broadcast_unknown ∷ []
allowed_transitions included = succeeded ∷ reverted ∷ submitted ∷ []
allowed_transitions succeeded = []
allowed_transitions reverted = []
allowed_transitions failed = []
allowed_transitions cancelled = []

unfoldable pub is_terminal_operation_state : OperationState → Bool
unfolding includes_state
is_terminal_operation_state state = includes_state terminal_operation_states state

unfoldable pub can_transition_operation : OperationState → OperationState → Bool
unfolding includes_state allowed_transitions
can_transition_operation from to = includes_state (allowed_transitions from) to

pub state_eq_iff : (a b : OperationState) → (state_eq a b ≡ true) ↔ (a ≡ b)
unfolding state_eq
state_eq_iff a b = ground arith

pub state_eq_refl : (a : OperationState) → state_eq a a ≡ true
unfolding state_eq
state_eq_refl a = ground arith
