-- ===== src/Examples/Settings.antt =====
-- A configuration, and values in headers.
use kafka_resilience.Base.{◌≡◌, ◌≢◌, ◌↔◌, refl, String, some, List, [], ◌∷◌, negsuc, arith}
use kafka_resilience.Base.GoMap.{lookup}
use kafka_resilience.Base.Decimal.{IsInt64}
use kafka_resilience.Config.{Config, validate, retry_topic, redirect_topic, dlq_topic}
use kafka_resilience.Config.Valid.{IsValid, validate-IsValid}
use kafka_resilience.Config.Topics.{topics_apart}
use kafka_resilience.Message.Headers.{Header, get, all, copy_into, delete}
use kafka_resilience.Message.Headers.Copy.{lookup-all}
use kafka_resilience.Message.Headers.Laws.{get-delete}
use kafka_resilience.Message.Values.{Kind, set_header, get_header_value}
use kafka_resilience.Message.Values.RoundTrip.{get_header_value-set_header}
use kafka_resilience.Examples.{config, header, first}

config_validates : validate config ≡ []
unfolding validate kafka_resilience.Config.validate_required_fields
    kafka_resilience.Config.validate_numeric_fields
    kafka_resilience.Config.validate_prefix_collisions
config_validates = refl

pub config-IsValid : IsValid config
config-IsValid = (validate-IsValid config).0 config_validates

validate-IsValid_example : (validate config ≡ []) ↔ IsValid config
validate-IsValid_example = validate-IsValid config

topics_apart_example :
    (retry_topic config "orders" ≢ redirect_topic config "orders")
    × (retry_topic config "orders" ≢ dlq_topic config "orders")
    × (redirect_topic config "orders" ≢ dlq_topic config "orders")
    × ((retry_topic config "orders" ≡ retry_topic config "bills")
        ↔ (◌≡◌ {A = String} "orders" "bills"))
    × ((redirect_topic config "orders" ≡ redirect_topic config "bills")
        ↔ (◌≡◌ {A = String} "orders" "bills"))
    × ((dlq_topic config "orders" ≡ dlq_topic config "bills") ↔ (◌≡◌ {A = String} "orders" "bills"))
topics_apart_example = topics_apart config config-IsValid "orders" "bills"

minus_seven_fits : IsInt64 (negsuc 6)
minus_seven_fits = omega arith

get_header_value-set_header_example :
    (hs' : List Header) × (set_header Kind.int first.headers "n" (negsuc 6) ≡ some hs')
    × (get_header_value Kind.int hs' "n" ≡ some (negsuc 6))
    × ((j : String) → "n" ≢ j → get j hs' ≡ get j first.headers)
get_header_value-set_header_example =
    get_header_value-set_header Kind.int first.headers "n" (negsuc 6) minus_seven_fits

abbrev doubled : List Header
doubled = header "a" "1" ∷ header "b" "2" ∷ header "a" "3" ∷ []

lookup-all_example : lookup "a" (all doubled) ≡ get "a" (copy_into doubled [])
lookup-all_example = lookup-all "a" doubled

get-delete_example : get "b" (delete "a" doubled) ≡ some "2"
unfolding get
get-delete_example = get-delete "a" "b" doubled
