-- ===== src/Tests/Texts.antt =====
-- The theorems about names and hashes at work.
use picodata_operator.Base.{ℕ, ◌≡◌, refl, List, [], ◌∷◌, arith}
use picodata_operator.Base.Int.{ℤ, pos}
use picodata_operator.Api.{PicoclusterDb}
use picodata_operator.Names.{
  interconnect_service_name, client_service_name, config_map_name, stateful_set_name,
}
use picodata_operator.Names.Shift.{names_shift}
use picodata_operator.StatefulSets.{config_hash, first_eight}
use picodata_operator.StatefulSets.Hash.{read_hex, read_hex-config_hash}
use picodata_operator.Tests.Sample.{sample_platform, sample_cluster, tier_of}
use picodata_operator.Api.Spec.{TierSpec}
use picodata_operator.Base.{none}

abbrev digest : List ℕ
digest = 1 ∷ 2 ∷ 3 ∷ 4 ∷ 5 ∷ 6 ∷ 7 ∷ 8 ∷ 9 ∷ []

read_hex-config_hash_example : read_hex (config_hash "any") ≡ first_eight 8 digest
read_hex-config_hash_example = read_hex-config_hash "any" (omega arith)

-- The sample cluster under another name.
abbrev named : PicoclusterDb → PicoclusterDb
named cluster = record cluster { meta = record (cluster.meta) { name = "hot-demo" } }

abbrev hot_data : TierSpec
hot_data = tier_of "data-hot" (pos 1) [] none

abbrev data_tier : TierSpec
data_tier = tier_of "data" (pos 1) [] none

names_shift_example :
    (interconnect_service_name sample_cluster hot_data
      ≡ interconnect_service_name (named sample_cluster) data_tier)
    × (client_service_name sample_cluster hot_data
        ≡ client_service_name (named sample_cluster) data_tier)
    × (config_map_name sample_cluster hot_data ≡ config_map_name (named sample_cluster) data_tier)
    × ((i : ℤ)
        → stateful_set_name sample_cluster hot_data i
          ≡ stateful_set_name (named sample_cluster) data_tier i)
names_shift_example =
    names_shift sample_cluster (named sample_cluster) hot_data data_tier "data" "hot" "demo" refl
      refl refl refl
