-- ===== src/Gateway/Guardrails.antt =====
-- What gateway_client/guardrails.py lets through, against a description by messages.
use portfolio_project.Prelude.{
  ◌≡◌, refl, Bool, true, false, ◌&&◌, ◌||◌, List, [], ◌∷◌, map, str_eq, arith, if◌then◌else◌, any,
}
use portfolio_project.Gateway.{
  Text, Content, plain, parts, missing, Message, Redactor, redact, check_injection, passed, stopped,
  screen_message, apply_guardrails, append_screened,
}

-- A user message with a text in which a pattern is found.
abbrev pub is_suspicious : List (Text → Bool) → Message → Bool
is_suspicious patterns m = str_eq m.role "user" && content_found m.content
  where
    content_found : Content → Bool
    content_found (plain text) = check_injection patterns text
    content_found (parts ps) = false
    content_found missing = false

-- The message with its text redacted, where it has one.
abbrev pub redacted_message : Redactor → Message → Message
redacted_message r m = in_content m.content
  where
    in_content : Content → Message
    in_content (plain text) = record m { content = plain (redact r text) }
    in_content (parts ps) = m
    in_content missing = m

module _ (r : Redactor) (patterns : List (Text → Bool)) where
  screen_message_lem :
      (m : Message)
      → screen_message r patterns m
        ≡ (if is_suspicious patterns m then stopped else passed (redacted_message r m ∷ []))
  unfolding screen_message
  screen_message_lem m = by_content m.content
    where
      by_content :
          (content : Content)
          → screen_message r patterns (record m { content = content }) ≡ (
              if is_suspicious patterns (record m { content = content })
              then stopped
              else passed (redacted_message r (record m { content = content }) ∷ []))
      by_content (plain text) = ground arith
      by_content (parts ps) = ground arith
      by_content missing = ground arith

  -- The guardrails stop exactly when some user text is suspicious, and otherwise pass every message
  -- in order with its text redacted; a content that is no text passes as it is, unchecked.
  pub apply_guardrails_lem :
      (messages : List Message)
      → apply_guardrails r patterns messages ≡ (
          if any (is_suspicious patterns) messages
          then stopped
          else passed (map (redacted_message r) messages))
  unfolding apply_guardrails any
  apply_guardrails_lem [] = refl
  apply_guardrails_lem (m ∷ messages) =
      rw (screen_message_lem m, apply_guardrails_lem messages)
        (by_tests (is_suspicious patterns m) (any (is_suspicious patterns) messages))
    where
      by_tests :
          (b c : Bool)
          → append_screened r patterns
              (if b then stopped else passed (redacted_message r m ∷ []))
              (if c then stopped else passed (map (redacted_message r) messages))
            ≡ (if b || c
                then stopped
                else passed (redacted_message r m ∷ map (redacted_message r) messages))
      by_tests true c = refl
      by_tests false true = refl
      by_tests false false = refl
