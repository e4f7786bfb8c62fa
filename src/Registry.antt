-- ===== src/Registry.antt =====
-- sectors/registry.py: the sectors and their agents.
mod Tests
use multiagent_platform_v.Prelude.{
  Bool, List, Option, String, [], false, if◌then◌else◌, none, refl, some, true, ◌==◌, ◌||◌, ◌∷◌,
  ◌≡◌,
}
use multiagent_platform_v.Redis.Commands.{contains}

-- SECTOR_AGENTS, in the order of its entries

abbrev pub sector_agents : List (String × List String)
sector_agents =
    (
      "supply_chain",
      "weather_agent" ∷ "sales_agent" ∷ "production_agent" ∷ "aggregator_agent" ∷ "decision_agent"
          ∷ [],
    )
    ∷ ("legal", [])
    ∷ ("hr", [])
    ∷ ("real_estate", [])
    ∷ []

-- the agents, ValueError and NotImplementedError
pub data Found : Type 0 where
  found : List String → Found
  unknown_sector : Found
  no_agents_yet : Found

abbrev pub lookup {ℓ} : {A : Type ℓ} → String → List (String × A) → Option A
lookup key [] = none
lookup key ((k, a) ∷ rest) = if k == key then some a else lookup key rest

abbrev pub found_of : Option (List String) → Found
found_of none = unknown_sector
found_of (some []) = no_agents_yet
found_of (some (a ∷ l)) = found (a ∷ l)

unfoldable pub get_sector_agents : String → Found
get_sector_agents sector = found_of (lookup sector sector_agents)

abbrev pub available : List (String × List String) → List String
available [] = []
available ((sector, []) ∷ rest) = available rest
available ((sector, _ ∷ _) ∷ rest) = sector ∷ available rest

pub list_available_sectors : List String
list_available_sectors = available sector_agents

by_tests :
    (a b c d : Bool) (l : List String)
    → found_of (
        if a
        then some l
        else if b
        then some []
        else if c
        then some []
        else if d
        then some []
        else none)
      ≡ (if a || false
          then found_of (some l)
          else if b || (c || (d || false))
          then no_agents_yet
          else unknown_sector)
by_tests true b c d l = refl
by_tests false true c d l = refl
by_tests false false true d l = refl
by_tests false false false true l = refl
by_tests false false false false l = refl

-- A sector is listed as available exactly if it has agents, and then they are those of the supply
-- chain: every other sector is refused, as unknown or as one without agents.
pub get_sector_agents-available :
    (sector : String)
    → get_sector_agents sector ≡ (
        if contains sector list_available_sectors
        then found_of (lookup "supply_chain" sector_agents)
        else if contains sector ("legal" ∷ "hr" ∷ "real_estate" ∷ [])
        then no_agents_yet
        else unknown_sector)
unfolding get_sector_agents list_available_sectors
get_sector_agents-available sector =
    by_tests ("supply_chain" == sector) ("legal" == sector) ("hr" == sector)
      ("real_estate" == sector) _
