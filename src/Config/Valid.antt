-- ===== src/Config/Valid.antt =====
-- Validation accepts exactly the configurations that meet every rule.
use kafka_resilience.Base.{
  ◌≡◌, ◌≢◌, ◌↔◌, refl, Bool, true, false, List, [], String, ℤ, pos, ◌≤ℤ◌, ◌<ℤ◌, arith, eq_iff,
  ==_of_ne, ◌==◌, leb_ℤ, ltb_ℤ,
}
use mathlib.Core.List.{concat-ne-nil}
use kafka_resilience.Config.{
  Config, Problem, report, validate, validate_required_fields, validate_numeric_fields,
  validate_prefix_collisions, no_group_id, no_retry_prefix, no_redirect_prefix, no_dlq_prefix,
  bad_max_retries, bad_replication, bad_partitions, bad_restore, bad_idle, bad_restart,
  retry_is_redirect, retry_is_dlq, redirect_is_dlq,
}

pub record IsValid (c : Config) : Type 0 where
  pub group_id : c.group_id ≢ ""
  pub retry_prefix : c.retry_topic_prefix ≢ ""
  pub redirect_prefix : c.redirect_topic_prefix ≢ ""
  pub dlq_prefix : c.dlq_topic_prefix ≢ ""
  pub max_retries : pos 0 ≤ℤ c.max_retries
  pub replication : pos 1 ≤ℤ c.replication_factor
  pub partitions : pos 0 ≤ℤ c.retry_topic_partitions
  pub restore : pos 0 ≤ℤ c.state_restore_timeout
  pub idle : pos 0 ≤ℤ c.state_restore_idle_timeout
  pub restart : pos 0 <ℤ c.worker_restart_interval
  pub retry_ne_redirect : c.retry_topic_prefix ≢ c.redirect_topic_prefix
  pub retry_ne_dlq : c.retry_topic_prefix ≢ c.dlq_topic_prefix
  pub redirect_ne_dlq : c.redirect_topic_prefix ≢ c.dlq_topic_prefix

not_lt : (a b : ℤ) → ltb_ℤ a b ≡ false → b ≤ℤ a
not_lt a b h = ground arith

not_le : (a b : ℤ) → leb_ℤ a b ≡ false → b <ℤ a
not_le a b h = ground arith

lt_false : (a b : ℤ) → b ≤ℤ a → ltb_ℤ a b ≡ false
lt_false a b h = ground arith

le_false : (a b : ℤ) → b <ℤ a → leb_ℤ a b ≡ false
le_false a b h = ground arith

-- Nothing is reported exactly if nothing was before and the test passed.
report-nil :
    (b : Bool) (p : Problem) (errs : List Problem)
    → report b p errs ≡ []
    → (b ≡ false) × (errs ≡ [])
report-nil true p errs h = absurd (concat-ne-nil p errs h)
report-nil false p errs h = (refl, h)

ne_of : (s t : String) → (s == t) ≡ false → s ≢ t
ne_of s t h = ground (arith, eq_iff s t)

required_fields_sound :
    (c : Config) (errs : List Problem)
    → validate_required_fields c errs ≡ []
    → ((c.group_id == "") ≡ false)
      × ((c.retry_topic_prefix == "") ≡ false)
      × ((c.redirect_topic_prefix == "") ≡ false)
      × ((c.dlq_topic_prefix == "") ≡ false)
      × (errs ≡ [])
unfolding validate_required_fields
required_fields_sound c errs h =
    let (d, h₁) = report-nil (c.dlq_topic_prefix == "") no_dlq_prefix _ h in
    let (r, h₂) = report-nil (c.redirect_topic_prefix == "") no_redirect_prefix _ h₁ in
    let (t, h₃) = report-nil (c.retry_topic_prefix == "") no_retry_prefix _ h₂ in
    let (g, h₄) = report-nil (c.group_id == "") no_group_id errs h₃ in (g, t, r, d, h₄)

numeric_fields_sound :
    (c : Config) (errs : List Problem)
    → validate_numeric_fields c errs ≡ []
    → (pos 0 ≤ℤ c.max_retries)
      × (pos 1 ≤ℤ c.replication_factor)
      × (pos 0 ≤ℤ c.retry_topic_partitions)
      × (pos 0 ≤ℤ c.state_restore_timeout)
      × (pos 0 ≤ℤ c.state_restore_idle_timeout)
      × (pos 0 <ℤ c.worker_restart_interval)
      × (errs ≡ [])
unfolding validate_numeric_fields
numeric_fields_sound c errs h =
    let (w, h₁) =
      report-nil (leb_ℤ c.worker_restart_interval (pos 0)) (bad_restart c.worker_restart_interval) _
        h in
    let (i, h₂) =
      report-nil (ltb_ℤ c.state_restore_idle_timeout (pos 0))
        (bad_idle c.state_restore_idle_timeout) _ h₁ in
    let (s, h₃) =
      report-nil (ltb_ℤ c.state_restore_timeout (pos 0)) (bad_restore c.state_restore_timeout) _
        h₂ in
    let (p, h₄) =
      report-nil (ltb_ℤ c.retry_topic_partitions (pos 0)) (bad_partitions c.retry_topic_partitions)
        _ h₃ in
    let (f, h₅) =
      report-nil (ltb_ℤ c.replication_factor (pos 1)) (bad_replication c.replication_factor) _ h₄ in
    let (m, h₆) =
      report-nil (ltb_ℤ c.max_retries (pos 0)) (bad_max_retries c.max_retries) errs h₅ in
    (
      not_lt c.max_retries (pos 0) m,
      not_lt c.replication_factor (pos 1) f,
      not_lt c.retry_topic_partitions (pos 0) p,
      not_lt c.state_restore_timeout (pos 0) s,
      not_lt c.state_restore_idle_timeout (pos 0) i,
      not_le c.worker_restart_interval (pos 0) w,
      h₆,
    )

prefix_collisions_sound :
    (c : Config) (errs : List Problem)
    → validate_prefix_collisions c errs ≡ []
    → (c.retry_topic_prefix ≢ c.redirect_topic_prefix)
      × (c.retry_topic_prefix ≢ c.dlq_topic_prefix)
      × (c.redirect_topic_prefix ≢ c.dlq_topic_prefix)
      × (errs ≡ [])
unfolding validate_prefix_collisions
prefix_collisions_sound c errs h =
    let (x, h₁) = report-nil (c.redirect_topic_prefix == c.dlq_topic_prefix) redirect_is_dlq _ h in
    let (y, h₂) = report-nil (c.retry_topic_prefix == c.dlq_topic_prefix) retry_is_dlq _ h₁ in
    let (z, h₃) =
      report-nil (c.retry_topic_prefix == c.redirect_topic_prefix) retry_is_redirect errs h₂ in
    (ne_of _ _ z, ne_of _ _ y, ne_of _ _ x, h₃)

validate_sound : (c : Config) → validate c ≡ [] → IsValid c
unfolding validate
validate_sound c h =
    let (rr, rd, xd, h₁) =
      prefix_collisions_sound c (validate_numeric_fields c (validate_required_fields c [])) h in
    let (m, f, p, s, i, w, h₂) = numeric_fields_sound c (validate_required_fields c []) h₁ in
    let (g, t, r, d, _) = required_fields_sound c [] h₂ in
    record {
      group_id = ne_of _ _ g;
      retry_prefix = ne_of _ _ t;
      redirect_prefix = ne_of _ _ r;
      dlq_prefix = ne_of _ _ d;
      max_retries = m;
      replication = f;
      partitions = p;
      restore = s;
      idle = i;
      restart = w;
      retry_ne_redirect = rr;
      retry_ne_dlq = rd;
      redirect_ne_dlq = xd;
    }

validate_complete : (c : Config) → IsValid c → validate c ≡ []
unfolding validate validate_required_fields validate_numeric_fields validate_prefix_collisions
validate_complete c v = rw (
  ==_of_ne _ _ v.group_id,
  ==_of_ne _ _ v.retry_prefix,
  ==_of_ne _ _ v.redirect_prefix,
  ==_of_ne _ _ v.dlq_prefix,
  ==_of_ne _ _ v.retry_ne_redirect,
  ==_of_ne _ _ v.retry_ne_dlq,
  ==_of_ne _ _ v.redirect_ne_dlq,
  lt_false c.max_retries (pos 0) v.max_retries,
  lt_false c.replication_factor (pos 1) v.replication,
  lt_false c.retry_topic_partitions (pos 0) v.partitions,
  lt_false c.state_restore_timeout (pos 0) v.restore,
  lt_false c.state_restore_idle_timeout (pos 0) v.idle,
  le_false c.worker_restart_interval (pos 0) v.restart,
)

-- Validate reports nothing exactly for the configurations that meet every rule: the four texts are
-- there, the numbers are in their ranges, and the three prefixes differ.
pub validate-IsValid : (c : Config) → (validate c ≡ []) ↔ IsValid c
validate-IsValid c = (validate_sound c, validate_complete c)
