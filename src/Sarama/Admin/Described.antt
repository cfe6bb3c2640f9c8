-- ===== src/Sarama/Admin/Described.antt =====
-- A topic is found in the adapter's answer exactly if the library described it without an error.
use kafka_resilience.Base.{
  String, ◌≡◌, refl, Bool, Bool-cases, true, false, List, [], ◌∷◌, inl, inr, ◌==◌, ◌||◌, ◌&&◌, not,
  ℤ, arith,
}
use kafka_resilience.Base.Exec.{Result, ok, err}
use kafka_resilience.Errors.{Error}
use kafka_resilience.Admin.{TopicMetadata, contains_name}
use kafka_resilience.Sarama.Admin.{TopicDescription, offsets_of, with_offsets, collect}

unfoldable pub is_described : String → List TopicDescription → Bool
is_described name [] = false
is_described name (md ∷ mds) = (not md.has_error && (md.name == name)) || is_described name mds

-- An answer without an error names exactly these topics.
abbrev pub Answers : String → List TopicDescription → Result Error (List TopicMetadata) → Type 0
Answers name mds (ok result) = contains_name name result ≡ is_described name mds
Answers name mds (err e) = Unit

module _ (name : String) where
  with_offsets-Answers :
      (md : TopicDescription) (mds : List TopicDescription) (o : Result Error (List (ℤ × ℤ)))
      (rest : Result Error (List TopicMetadata))
      → md.has_error ≡ false
      → Answers name mds rest
      → Answers name (md ∷ mds) (with_offsets md o rest)
  unfolding contains_name is_described
  with_offsets-Answers md mds (err e) rest fine h = tt
  with_offsets-Answers md mds (ok offsets) (err e) fine h = tt
  with_offsets-Answers md mds (ok offsets) (ok result) fine h = ground (arith, fine, h)

  left_out-Answers :
      (md : TopicDescription) (mds : List TopicDescription)
      (rest : Result Error (List TopicMetadata))
      → md.has_error ≡ true
      → Answers name mds rest
      → Answers name (md ∷ mds) rest
  unfolding is_described
  left_out-Answers md mds (err e) bad h = tt
  left_out-Answers md mds (ok result) bad h = ground (arith, bad, h)

  pub collect-Answers :
      (get_offset : String → ℤ → Result Error ℤ) (mds : List TopicDescription)
      → Answers name mds (collect get_offset mds)
  unfolding collect contains_name is_described
  collect-Answers get_offset [] = refl
  collect-Answers get_offset (md ∷ mds) =
      let more = collect-Answers get_offset mds in
      elim (Bool-cases md.has_error) [
        | inl bad ↦ simp bad (left_out-Answers md mds (collect get_offset mds) bad more)
        | inr fine ↦ simp fine (
            with_offsets-Answers md mds (offsets_of get_offset md.name md.partitions)
              (collect get_offset mds) fine more)
      ]
