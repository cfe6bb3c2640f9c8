-- ===== src/Sarama/Admin.antt =====
-- adapter/sarama/admin.go: CreateTopic and DescribeTopics over the client library's admin, of which
-- the outcomes are parameters. DeleteConsumerGroup and Close pass a call on.
pub mod Described
use Prim.Native.String.{◌++◌}
use kafka_resilience.Base.{
  length, ℕ, ◌+◌, String, Bool, true, false, Option, none, some, List, [], ◌∷◌, if◌then◌else◌, ℤ,
  pos, ltb,
}
use kafka_resilience.Base.Exec.{Result, ok, err}
use kafka_resilience.Errors.{Error, new, wrap}
use kafka_resilience.Admin.{TopicMetadata}

-- What ClusterAdmin.CreateTopic returns: nil, a TopicError for a topic that exists, another error.
pub data Created : Type 0 where
  made : Created
  already_exists : Created
  failed : Error → Created

-- CreateTopic behind the library's call.
unfoldable pub create_topic : String → Created → Result Error (Unit {0})
create_topic name made = ok tt
create_topic name already_exists = ok tt
create_topic name (failed e) = err (wrap ("failed to create topic " ++ name) e)

-- The metadata of a topic as the library returns them; `partitions` are the ids.
pub record TopicDescription : Type 0 where
  pub name : String
  pub has_error : Bool
  pub partitions : List ℤ

abbrev pub max_int32 : ℕ
max_int32 = 2147483647

-- int32(min(len(partitions), math.MaxInt32))
unfoldable pub partition_number : List ℤ → ℤ
partition_number ids = if ltb (length ids) max_int32 then pos (length ids) else pos max_int32

-- The metadata of one topic, in front of those of the topics behind it.
abbrev pub with_offsets :
    TopicDescription
    → Result Error (List (ℤ × ℤ))
    → Result Error (List TopicMetadata)
    → Result Error (List TopicMetadata)
with_offsets md (err e) rest = err e
with_offsets md (ok offsets) (err e) = err e
with_offsets md (ok offsets) (ok result) = ok (
    record {
      name = md.name;
      partitions = partition_number md.partitions;
      partition_offsets = offsets;
    }
    ∷ result)

module _ (get_offset : String → ℤ → Result Error ℤ) where
  -- The loop over the partitions, with the entries of the map in the order of the writes.
  unfoldable pub offsets_of : String → List ℤ → Result Error (List (ℤ × ℤ))
  offsets_of name [] = ok []
  offsets_of name (id ∷ ids) =
      let rest = offsets_of name ids in
      elim (get_offset name id) [
        | err e ↦ err (wrap ("failed to get offset for topic " ++ name) e)
        | ok offset ↦ elim rest [ err e ↦ err e | ok offsets ↦ ok ((id, offset) ∷ offsets) ]
      ]

  -- The loop over the topics: one with an error is left out.
  unfoldable pub collect : List TopicDescription → Result Error (List TopicMetadata)
  collect [] = ok []
  collect (md ∷ mds) =
      let rest = collect mds in
      if md.has_error then rest else with_offsets md (offsets_of md.name md.partitions) rest

  -- DescribeTopics behind the library's call.
  unfoldable pub describe_topics :
      Result Error (List TopicDescription) → Result Error (List TopicMetadata)
  describe_topics (err e) = err e
  describe_topics (ok mds) = collect mds
