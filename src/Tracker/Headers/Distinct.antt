-- ===== src/Tracker/Headers/Distinct.antt =====
-- A retry message has each header once.
use kafka_resilience.Base.{String, Bool, Option, none, some, List, [], ◌∷◌, Bool-cases, inl, inr}
use kafka_resilience.Errors.{Error, error_text}
use kafka_resilience.Config.{Config}
use kafka_resilience.Message.Headers.{Header, set}
use kafka_resilience.Message.Headers.Laws.{set-IsDistinct, IsDistinct}
use kafka_resilience.Message.Values.{put_header, set_header, format_value, header_retry_reason}
use kafka_resilience.Tracker.{copy_except, is_retry_header, RetryData, retry_headers, put_reason}
use kafka_resilience.Tracker.Headers.{put_text}

copy_except-IsDistinct :
    (ex : String → Bool) (hs to : List Header) → IsDistinct to → IsDistinct (copy_except ex hs to)
unfolding copy_except
copy_except-IsDistinct ex [] to d = d
copy_except-IsDistinct ex (h ∷ hs) to d = elim (Bool-cases (ex h.key)) [
  | inl out ↦ rw out (copy_except-IsDistinct ex hs to d)
  | inr kept ↦
      rw kept
        (copy_except-IsDistinct ex hs (set h.key h.value to) (set-IsDistinct h.key h.value to d))
]

put_reason-IsDistinct :
    (e : Option Error) (hs : List Header) → IsDistinct hs → IsDistinct (put_reason e hs)
unfolding put_reason
put_reason-IsDistinct none hs d = d
put_reason-IsDistinct (some e) hs d =
    rw put_text (set-IsDistinct header_retry_reason (error_text e) hs d)

-- A retry message has each header once.
pub retry_headers-IsDistinct :
    (cfg : Config) (d : RetryData) (hs : List Header) → IsDistinct (retry_headers cfg d hs)
unfolding retry_headers put_header set_header set format_value put_reason
retry_headers-IsDistinct cfg d hs = set-IsDistinct _ _ _ (
    set-IsDistinct _ _ _ (
      set-IsDistinct _ _ _ (
        put_reason-IsDistinct d.last_error _ (
          set-IsDistinct _ _ _ (
            set-IsDistinct _ _ _ (
              set-IsDistinct _ _ _
                (set-IsDistinct _ _ _ (copy_except-IsDistinct is_retry_header hs [] tt))))))))
