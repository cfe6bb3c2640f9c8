-- ===== src/Config.antt =====
-- resilience/config.go: the configuration, its defaults and its validation, and the names of the
-- three topics that the tracker derives from a topic.
pub mod Valid
pub mod Topics
use Prim.Native.String.{◌++◌}
use kafka_resilience.Base.{
  ◌≡◌, refl, String, Bool, true, false, Option, none, some, List, [], ◌∷◌, ◌==◌, if◌then◌else◌, ℤ,
  pos, negsuc, ltb_ℤ, leb_ℤ,
}
use mathlib.Core.List.{◌++◌ as append}

-- Durations are in nanoseconds.
pub record Config : Type 0 where
  pub retry_topic_prefix : String
  pub redirect_topic_prefix : String
  pub dlq_topic_prefix : String
  pub group_id : String
  pub max_retries : ℤ
  pub initial_offset : ℤ
  pub state_restore_timeout : ℤ
  pub state_restore_idle_timeout : ℤ
  pub retry_topic_partitions : ℤ
  pub replication_factor : ℤ
  pub free_on_dlq : Bool
  pub worker_restart_interval : ℤ
  pub disable_auto_topic_creation : Bool

-- NewDefaultConfig.
abbrev pub new_default_config : Config
new_default_config = record {
  retry_topic_prefix = "retry";
  redirect_topic_prefix = "redirect";
  dlq_topic_prefix = "dlq";
  group_id = "";
  max_retries = pos 5;
  initial_offset = negsuc 1;
  state_restore_timeout = pos 30000000000;
  state_restore_idle_timeout = pos 5000000000;
  retry_topic_partitions = pos 0;
  replication_factor = pos 1;
  free_on_dlq = false;
  worker_restart_interval = pos 5000000000;
  disable_auto_topic_creation = false;
}

-- One constructor for each message of the validation.
pub data Problem : Type 0 where
  no_group_id no_retry_prefix no_redirect_prefix no_dlq_prefix : Problem
  bad_max_retries bad_replication bad_partitions bad_restore bad_idle bad_restart : ℤ → Problem
  retry_is_redirect retry_is_dlq redirect_is_dlq : Problem

-- `if failed { errs = append(errs, problem) }`
abbrev pub report : Bool → Problem → List Problem → List Problem
report true p errs = append errs (p ∷ [])
report false p errs = errs

unfoldable pub validate_required_fields : Config → List Problem → List Problem
validate_required_fields c errs = report (c.dlq_topic_prefix == "") no_dlq_prefix (
    report (c.redirect_topic_prefix == "") no_redirect_prefix (
      report (c.retry_topic_prefix == "") no_retry_prefix
        (report (c.group_id == "") no_group_id errs)))

unfoldable pub validate_numeric_fields : Config → List Problem → List Problem
validate_numeric_fields c errs =
    report (leb_ℤ c.worker_restart_interval (pos 0)) (bad_restart c.worker_restart_interval) (
      report (ltb_ℤ c.state_restore_idle_timeout (pos 0)) (bad_idle c.state_restore_idle_timeout) (
        report (ltb_ℤ c.state_restore_timeout (pos 0)) (bad_restore c.state_restore_timeout) (
          report (ltb_ℤ c.retry_topic_partitions (pos 0)) (bad_partitions c.retry_topic_partitions)
            (report (ltb_ℤ c.replication_factor (pos 1)) (bad_replication c.replication_factor)
              (report (ltb_ℤ c.max_retries (pos 0)) (bad_max_retries c.max_retries) errs)))))

unfoldable pub validate_prefix_collisions : Config → List Problem → List Problem
validate_prefix_collisions c errs =
    report (c.redirect_topic_prefix == c.dlq_topic_prefix) redirect_is_dlq (
      report (c.retry_topic_prefix == c.dlq_topic_prefix) retry_is_dlq
        (report (c.retry_topic_prefix == c.redirect_topic_prefix) retry_is_redirect errs))

-- Validate: no problem is nil, and the problems are joined in one error.
unfoldable pub validate : Config → List Problem
validate c =
    validate_prefix_collisions c (validate_numeric_fields c (validate_required_fields c []))

-- RetryTopic, RedirectTopic and DLQTopic of resilience/tracker.go.
unfoldable pub retry_topic : Config → String → String
retry_topic c topic = c.retry_topic_prefix ++ "_" ++ topic

unfoldable pub redirect_topic : Config → String → String
redirect_topic c topic = c.redirect_topic_prefix ++ "_" ++ topic

unfoldable pub dlq_topic : Config → String → String
dlq_topic c topic = c.dlq_topic_prefix ++ "_" ++ topic

default_needs_group_id : validate new_default_config ≡ no_group_id ∷ []
unfolding validate validate_required_fields validate_numeric_fields validate_prefix_collisions
default_needs_group_id = refl
