-- ===== src/Config/Tests.antt =====
-- A configuration with two generators.
use mizumi.Prelude.{◌≡◌, refl, [], ◌∷◌, none, some, length, arith}
use mizumi.Text.{codes}
use mizumi.Text.Trim.{trim}
use mizumi.Config.{
  GeneratorConfig, vietnamese_residents, flight_incidents, GenerateConfig, ok, property,
  load_config,
}
use mizumi.Config.Valid.{IsValid, generator_count, load_config-IsValid}
use mizumi.Config.Reload.{config_json, load_config-config_json}

abbrev people : GeneratorConfig
people = vietnamese_residents 10 (codes "people.csv") (some 7)

abbrev delays : GeneratorConfig
delays = flight_incidents 5 (codes "delays.csv") (codes "tickets.csv") none none

abbrev config : GenerateConfig
config = record { seed = some 42; generators = people ∷ delays ∷ [] }

config-IsValid : IsValid config
unfolding trim
config-IsValid =
    (omega arith, ((omega arith, refl, omega arith), ((omega arith, refl, refl, tt), tt)))

load_config-config_json_example : load_config (config_json config) ≡ ok config
load_config-config_json_example = load_config-config_json config config-IsValid

load_config-IsValid_example :
    IsValid config
    × (length config.generators
        ≡ generator_count (property (codes "generators") (config_json config)))
load_config-IsValid_example =
    load_config-IsValid (config_json config) config load_config-config_json_example
