-- ===== src/Tests/Runs.antt =====
-- Runs of the model on the sample cluster.
use picodata_operator.Base.{◌≡◌, refl}
use picodata_operator.Base.Int.{pos}
use picodata_operator.Base.Text.{to_upper}
use picodata_operator.Base.Decimal.{format_int}
use picodata_operator.Names.{stateful_set_name, client_service_name, interconnect_service_name}
use picodata_operator.ConfigMaps.Listeners.{placeholder}
use picodata_operator.StatefulSets.{config_hash}
use picodata_operator.StatefulSets.InitContainer.{sed_placeholder}
use picodata_operator.Base.Text.{hex_byte}
use picodata_operator.Tests.Sample.{sample_platform, sample_cluster, storage_tier, router_tier}

names :
    (stateful_set_name sample_cluster storage_tier (pos 12) ≡ "storage-demo-12")
    × (client_service_name sample_cluster router_tier ≡ "router-demo")
    × (interconnect_service_name sample_cluster router_tier ≡ "router-demo-interconnect")
unfolding stateful_set_name client_service_name interconnect_service_name format_int
names = (refl, refl, refl)

hash : config_hash "any" ≡ "0102030405060708"
unfolding config_hash hex_byte
hash = refl

weather_placeholder :
    (placeholder "weather" "http-v1" ≡ "__PLUGIN_ADVERTISE_WEATHER_HTTP-V1__")
    × (sed_placeholder "weather" "http-v1" ≡ "__PLUGIN_ADVERTISE_WEATHER_HTTP-V1__")
unfolding placeholder sed_placeholder to_upper
weather_placeholder = (refl, refl)
