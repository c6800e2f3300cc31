-- ===== src/Stub/Streams.antt =====
-- FakeEventSource, and the streams of the stub server. A listener is known by a number; an emission
-- is the calls that it makes, in order.
use chimely.Prelude.{
  ℕ, String, Bool, true, false, Option, none, some, List, [], ◌∷◌, ◌++◌, if◌then◌else◌, str_eq,
  ◌==◌, any, get_last?, decimal,
}

pub record FakeEventSource : Type 0 where
  pub url : String
  pub closed : Bool
  pub listeners : List (String × List ℕ)

unfoldable new_source : String → FakeEventSource
new_source url = record { url = url; closed = false; listeners = [] }

-- A set keeps one copy of a listener.
abbrev add_listener : ℕ → List ℕ → List ℕ
add_listener listener set = if any (λ l. l == listener) set then set else set ++ listener ∷ []

abbrev add_to : String → ℕ → List (String × List ℕ) → List (String × List ℕ)
add_to type listener [] = (type, listener ∷ []) ∷ []
add_to type listener ((key, set) ∷ rest) =
    let others = add_to type listener rest in
    if str_eq key type then (key, add_listener listener set) ∷ rest else (key, set) ∷ others

unfoldable add_event_listener : String → ℕ → FakeEventSource → FakeEventSource
add_event_listener type listener source = record source {
  listeners = add_to type listener source.listeners;
}

unfoldable close_fake : FakeEventSource → FakeEventSource
close_fake source = record source { closed = true }

abbrev listeners_of : String → List (String × List ℕ) → List ℕ
listeners_of type [] = []
listeners_of type ((key, set) ∷ rest) =
    let others = listeners_of type rest in if str_eq key type then set else others

pub record StreamEvent : Type 0 where
  pub data_text : Option String
  pub last_event_id : Option String

abbrev calls_of : StreamEvent → List ℕ → List (ℕ × StreamEvent)
calls_of event [] = []
calls_of event (listener ∷ listeners) = (listener, event) ∷ calls_of event listeners

unfoldable emit : String → StreamEvent → FakeEventSource → List (ℕ × StreamEvent)
emit type event source = calls_of event (listeners_of type source.listeners)

unfoldable create_event_source : String → List FakeEventSource → List FakeEventSource
create_event_source url sources = sources ++ new_source url ∷ []

-- The most recently created stream; none where the method throws.
unfoldable pub stream : List FakeEventSource → Option FakeEventSource
stream sources = get_last? sources

-- `this.stream().emit(...)`: none where it throws.
unfoldable emit_latest :
    String → StreamEvent → List FakeEventSource → Option (List (ℕ × StreamEvent))
emit_latest type event sources = elim (stream sources) [
  | none ↦ none
  | some source ↦ some (emit type event source)
]

abbrev bare_event : StreamEvent
bare_event = record { data_text = none; last_event_id = none }

-- `openStream`, `emitHint`, `emitRetry` and `dropStream`.
unfoldable emit_open : List FakeEventSource → Option (List (ℕ × StreamEvent))
emit_open = emit_latest "open" bare_event

unfoldable emit_hint : Option String → List FakeEventSource → Option (List (ℕ × StreamEvent))
emit_hint last_event_id =
    emit_latest "hint"
      (record { data_text = some "{\"reason\":\"test\"}"; last_event_id = last_event_id })

unfoldable emit_retry : ℕ → List FakeEventSource → Option (List (ℕ × StreamEvent))
emit_retry ms = emit_latest "retry" (record { data_text = some (decimal ms); last_event_id = none })

unfoldable emit_drop : List FakeEventSource → Option (List (ℕ × StreamEvent))
emit_drop = emit_latest "error" bare_event
