-- ===== src/Registry/Tests.antt =====
-- The registry at concrete sectors.
use multiagent_platform_v.Prelude.{refl, ◌≡◌}
use multiagent_platform_v.Registry.{get_sector_agents, no_agents_yet, unknown_sector}

hr_has_no_agents : get_sector_agents "hr" ≡ no_agents_yet
unfolding get_sector_agents
hr_has_no_agents = refl

farming_unknown : get_sector_agents "farming" ≡ unknown_sector
unfolding get_sector_agents
farming_unknown = refl
