-- ===== src/Examples/Topics.antt =====
-- The creation of topics on a cluster of one primary topic with six partitions.
use kafka_resilience.Base.{none, [], ◌∷◌, pos, true}
use kafka_resilience.Base.Exec.{ok}
use kafka_resilience.Admin.{Cluster, AdminEnvironment, ensure_topics_exist, ensure_redirect_topic}
use kafka_resilience.Admin.Topics.{EnsureOutcome, ensure_topics_exist-Outcome}
use kafka_resilience.Admin.RedirectTopic.{RedirectOutcome, ensure_redirect_topic-Outcome}
use kafka_resilience.Examples.{config}

abbrev admin : AdminEnvironment
admin = record {
  described =
      λ n names. ok (record { name = "orders"; partitions = pos 6; partition_offsets = [] } ∷ []);
  create_error = λ n request. none;
}

abbrev unused : Cluster
unused = record { requested = []; calls = 0 }

ensure_topics_exist-Outcome_example :
    EnsureOutcome admin config "orders" true unused
      (ensure_topics_exist admin config true "orders" unused).0
      (ensure_topics_exist admin config true "orders" unused).1
ensure_topics_exist-Outcome_example = ensure_topics_exist-Outcome admin config "orders" true unused

ensure_redirect_topic-Outcome_example :
    RedirectOutcome admin config "orders" unused
      (ensure_redirect_topic admin config "orders" unused).0
      (ensure_redirect_topic admin config "orders" unused).1
ensure_redirect_topic-Outcome_example = ensure_redirect_topic-Outcome admin config "orders" unused
