-- ===== src/Examples/Adapter.antt =====
-- Headers of the client library with a key twice.
use kafka_resilience.Base.{◌≡◌, refl, some, List, [], ◌∷◌}
use kafka_resilience.Message.Headers.{Header}
use kafka_resilience.Sarama.{get, set, delete, occurrences, occurrences-delete, get_after_set}
use kafka_resilience.Examples.{header}

abbrev twice : List Header
twice = header "a" "1" ∷ header "b" "2" ∷ header "a" "3" ∷ []

delete_swaps : delete "a" twice ≡ header "a" "3" ∷ header "b" "2" ∷ []
unfolding delete kafka_resilience.Sarama.last_of kafka_resilience.Sarama.but_last
delete_swaps = refl

get_after_set_example : get "b" (set "b" "9" twice) ≡ some "9"
get_after_set_example = get_after_set "b" "b" "9" twice
