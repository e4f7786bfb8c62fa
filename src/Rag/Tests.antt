-- ===== src/Rag/Tests.antt =====
-- The context at a concrete decision.
use multiagent_platform_v.Prelude.{[], codes, ℕ, ◌++◌, ◌∷◌, ◌≡◌}
use multiagent_platform_v.Rag.{Past, build_rag_context, join_lines}
use multiagent_platform_v.Rag.Budget.{IsLongest, build_rag_context-IsLongest, first_entries}

abbrev past : Past
past = record {
  summary = codes "HARISSA-140G in Sfax";
  decision = codes "Order 500.";
  accuracy = codes "0.92";
  date = codes "2026-03-01";
  similarity = codes "0.871";
}

build_rag_context-IsLongest_example :
    (k : ℕ) × (build_rag_context (past ∷ past ∷ [])
      ≡ join_lines (
          codes "=== RELEVANT PAST DECISIONS (learned from experience) ==="
          ∷ (first_entries k (past ∷ past ∷ []) ++ (codes "=== END HISTORICAL CONTEXT ===" ∷ []))))
    × IsLongest 0 k (past ∷ past ∷ [])
build_rag_context-IsLongest_example = build_rag_context-IsLongest past (past ∷ [])
