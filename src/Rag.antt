-- ===== src/Rag.antt =====
-- core/rag_memory.py: past decisions in the prompt. The queries to PostgreSQL are arguments, `none`
-- where anything raises, embeddings with them; a text is the list of its code points. The limit of
-- three rows is part of the queries.
pub mod Budget
mod Tests
use multiagent_platform_v.Prelude.{
  Bool, List, Option, [], codes, get_or, if◌then◌else◌, length, ltb, map, none, some, take, ℕ, ◌++◌,
  ◌+◌, ◌/◌, ◌∷◌,
}

abbrev pub Text : Type 0
Text = List ℕ

-- a row as it is shown: the date, and the texts of the two numbers; its product is never read
pub record Past : Type 0 where
  pub summary : Text
  pub decision : Text
  pub accuracy : Text
  pub date : Text
  pub similarity : Text

-- a row of decision_memory; the similarity is rounded in its text
pub record Row : Type 0 where
  pub summary : Text
  pub decision_text : Text
  pub accuracy : Text
  pub created_at : Text
  pub similarity : Text

abbrev pub past_of : Row → Past
past_of row = record {
  summary = row.summary;
  decision = take 300 row.decision_text;
  accuracy = row.accuracy;
  date = row.created_at;
  similarity = row.similarity;
}

abbrev pub or_rows : List Row → Option (List Row) → Option (List Row)
or_rows [] others = others
or_rows (row ∷ rows) others = some (row ∷ rows)

abbrev pub rows_found : (by_product by_sector : Option (List Row)) → Option (List Row)
rows_found none by_sector = none
rows_found (some rows) by_sector = or_rows rows by_sector

-- the decisions for the product, or else for the sector; nothing if a query raises
unfoldable pub retrieve_similar_decisions :
    (has_product : Bool) → (by_product by_sector : Option (List Row)) → List Past
retrieve_similar_decisions has_product by_product by_sector =
    map past_of (get_or (if has_product then rows_found by_product by_sector else by_sector) [])

-- MAX_CONTEXT_TOKENS
abbrev pub max_context_tokens : ℕ
max_context_tokens = 500

unfoldable pub entry_of : Past → Text
entry_of past =
    codes "["
    ++ (past.date
        ++ (codes " | similarity="
            ++ (past.similarity
                ++ (codes " | accuracy="
                    ++ (past.accuracy
                        ++ (codes "]\nSituation: "
                            ++ (take 150 past.summary
                                ++ (codes "\nDecision: "
                                    ++ (take 200 past.decision ++ codes "\n")))))))))

-- the loop: `token_count` so far
unfoldable pub entries_from : (token_count : ℕ) → List Past → List Text
entries_from token_count [] = []
entries_from token_count (past ∷ pasts) =
    let count = token_count + length (entry_of past) / 4 in
    let rest = entry_of past ∷ entries_from count pasts in
    if ltb max_context_tokens count then [] else rest

-- `"\n".join(lines)`
abbrev pub join_lines : List Text → Text
join_lines [] = []
join_lines (line ∷ []) = line
join_lines (line ∷ next ∷ lines) = line ++ (codes "\n" ++ join_lines (next ∷ lines))

unfoldable pub build_rag_context : List Past → Text
unfolding entries_from
build_rag_context [] = codes "No relevant historical decisions found."
build_rag_context (past ∷ pasts) = join_lines (
    codes "=== RELEVANT PAST DECISIONS (learned from experience) ==="
    ∷ (entries_from 0 (past ∷ pasts) ++ (codes "=== END HISTORICAL CONTEXT ===" ∷ [])))
