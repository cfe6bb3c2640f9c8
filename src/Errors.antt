-- ===== src/Errors.antt =====
-- Go's error values, as far as the program makes and inspects them (resilience/tracker.go).
use kafka_resilience.Base.{String, Bool, true, false}
use Prim.Native.String.{◌++◌}

-- `wrap` is `fmt.Errorf("…: %w", err)`, with the text in front; `not_retriable` is NotRetriableError.
-- Errors that wrap several others are not modelled.
pub data Error : Type 0 where
  new : String → Error
  wrap : String → Error → Error
  not_retriable : Error → Error

-- The method Error.
unfoldable pub error_text : Error → String
error_text (new s) = s
error_text (wrap prefix e) = prefix ++ ": " ++ error_text e
error_text (not_retriable origin) = error_text origin

-- errors.As(err, &notRetriable): the chain of Unwrap holds a NotRetriableError.
unfoldable pub is_not_retriable : Error → Bool
is_not_retriable (new s) = false
is_not_retriable (wrap prefix e) = is_not_retriable e
is_not_retriable (not_retriable origin) = true
