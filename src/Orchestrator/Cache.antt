-- ===== src/Orchestrator/Cache.antt =====
-- `_orchestrator_cache`: a graph is built once for a sector. The lock is held from the second look at
-- the cache to the entry, so that a build is one step.
use multiagent_platform_v.Prelude.{
  List, Option, Option-cases, String, ap, arith, eq_iff, inl, inr, none, refl, some, sym, ◌∙◌, ◌∷◌,
  ◌≡◌,
}
use multiagent_platform_v.Registry.{Found, lookup}
use multiagent_platform_v.Orchestrator.{
  AgentState, Built, Graph, Loader, build_orchestrator, built, import_error, not_implemented,
  value_error,
}

module _ (A : AgentState) where
  abbrev pub Graphs : Type 0
  Graphs = List (String × Graph A)

  abbrev pub enter : (sector : String) → Built A → Graphs → Built A × Graphs
  enter sector (built g) cache = (built g, (sector, g) ∷ cache)
  enter sector failed cache = (failed, cache)

  unfoldable pub cached_orchestrator :
      (load : Loader A)
      → (own : String → Option (A.State → A.State)) → (sector : String) → Found
      → Graphs
      → Built A × Graphs
  cached_orchestrator load own sector agents cache = elim (lookup sector cache) [
    | some g ↦ (built g, cache)
    | none ↦ enter sector (build_orchestrator A load own sector agents) cache
  ]

  hit :
      (load : Loader A) (own : String → Option (A.State → A.State)) (sector : String)
      (agents : Found) (g : Graph A) (cache : Graphs)
      → lookup sector cache ≡ some g
      → cached_orchestrator load own sector agents cache ≡ (built g, cache)
  unfolding cached_orchestrator
  hit load own sector agents g cache cached = rw (cached_orchestrator, cached) refl

  entered :
      (sector : String) (b : Built A) (g : Graph A) (cache : Graphs)
      → (enter sector b cache).0 ≡ built g
      → lookup sector (enter sector b cache).1 ≡ some g
  entered sector (import_error name) g cache h = cc
  entered sector value_error g cache h = cc
  entered sector not_implemented g cache h = cc
  entered sector (built g') g cache h = ground (arith, eq_iff sector sector, h)

  kept :
      (load : Loader A) (own : String → Option (A.State → A.State)) (sector : String)
      (agents : Found) (g : Graph A) (cache : Graphs)
      → (cached_orchestrator load own sector agents cache).0 ≡ built g
      → lookup sector (cached_orchestrator load own sector agents cache).1 ≡ some g
  unfolding cached_orchestrator
  kept load own sector agents g cache h = elim (Option-cases (lookup sector cache)) [
    | inl missing ↦
        let same : cached_orchestrator load own sector agents cache
            ≡ enter sector (build_orchestrator A load own sector agents) cache =
          rw (cached_orchestrator, missing) refl in
        ap (λ c. lookup sector c.1) same
        ∙ entered sector (build_orchestrator A load own sector agents) g cache
            (sym (ap (λ c. c.0) same) ∙ h)
    | inr (g', cached) ↦
        let same = hit load own sector agents g' cache cached in
        let equal : built g' ≡ built g = sym (ap (λ c. c.0) same) ∙ h in
        ap (λ c. lookup sector c.1) same ∙ cached ∙ cc
  ]

  -- A graph that was built for a sector is the one that every later analysis of the sector gets, and
  -- the cache stays as it is, whatever the registry and the loader would answer by then.
  pub cached_orchestrator-stable :
      (load load' : Loader A) (own own' : String → Option (A.State → A.State)) (sector : String)
      (agents agents' : Found) (g : Graph A) (cache : Graphs)
      → (cached_orchestrator load own sector agents cache).0 ≡ built g
      → let cache' = (cached_orchestrator load own sector agents cache).1 in
        cached_orchestrator load' own' sector agents' cache' ≡ (built g, cache')
  cached_orchestrator-stable load load' own own' sector agents agents' g cache h =
      let cache' = (cached_orchestrator load own sector agents cache).1 in
      hit load' own' sector agents' g cache' (kept load own sector agents g cache h)
