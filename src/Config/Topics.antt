-- ===== src/Config/Topics.antt =====
-- The names of the derived topics do not collide.
use Prim.Native.String.{◌++◌}
use text.Mathlib.TextLemmas.{append_cancel_left, append_cancel_right}
use kafka_resilience.Base.{String, ◌≡◌, ◌≢◌, ◌↔◌, ap}
use kafka_resilience.Config.{Config, retry_topic, redirect_topic, dlq_topic}
use kafka_resilience.Config.Valid.{IsValid}

-- Under a valid configuration the three topics of one topic differ, and none of them is derived
-- from two topics.
pub topics_apart :
    (c : Config)
    → IsValid c
    → (t u : String)
    → (retry_topic c t ≢ redirect_topic c t)
      × (retry_topic c t ≢ dlq_topic c t)
      × (redirect_topic c t ≢ dlq_topic c t)
      × ((retry_topic c t ≡ retry_topic c u) ↔ (t ≡ u))
      × ((redirect_topic c t ≡ redirect_topic c u) ↔ (t ≡ u))
      × ((dlq_topic c t ≡ dlq_topic c u) ↔ (t ≡ u))
unfolding retry_topic redirect_topic dlq_topic
topics_apart c v t u = (
  (λ e. v.retry_ne_redirect (append_cancel_right _ _ ("_" ++ t) e)),
  (λ e. v.retry_ne_dlq (append_cancel_right _ _ ("_" ++ t) e)),
  (λ e. v.redirect_ne_dlq (append_cancel_right _ _ ("_" ++ t) e)),
  (
    (λ e. append_cancel_left "_" t u (append_cancel_left c.retry_topic_prefix _ _ e)),
    ap (retry_topic c),
  ),
  (
    (λ e. append_cancel_left "_" t u (append_cancel_left c.redirect_topic_prefix _ _ e)),
    ap (redirect_topic c),
  ),
  (
    (λ e. append_cancel_left "_" t u (append_cancel_left c.dlq_topic_prefix _ _ e)),
    ap (dlq_topic c),
  ),
)
