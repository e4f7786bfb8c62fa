-- ===== src/Rag/Budget.antt =====
-- The budget of the context.
use multiagent_platform_v.Prelude.{
  Bool-cases, List, [], ap, arith, codes, inl, inr, length, ltb, map, refl, suc, take, ℕ, ◌++◌, ◌+◌,
  ◌/◌, ◌<◌, ◌∷◌, ◌≡◌, ◌≤◌, ◌⊎◌,
}
use multiagent_platform_v.Rag.{
  Past, Text, build_rag_context, entries_from, entry_of, join_lines, max_context_tokens,
}

-- the tokens that the entries are counted as

abbrev pub tokens : List Text → ℕ
tokens [] = 0
tokens (entry ∷ entries) = length entry / 4 + tokens entries

-- the entries of the first `k` decisions
abbrev pub first_entries : ℕ → List Past → List Text
first_entries k pasts = map entry_of (take k pasts)

-- `k` is as many decisions as fit, with `count` tokens used before
abbrev pub IsLongest : (count k : ℕ) → List Past → Type 0
IsLongest count k pasts =
    (count + tokens (first_entries k pasts) ≤ 500)
    × ((k ≡ length pasts)
        ⊎ ((k < length pasts) × (500 < count + tokens (first_entries (suc k) pasts))))

entries_from-IsLongest :
    (count : ℕ) (pasts : List Past)
    → count ≤ 500
    → (k : ℕ) × (entries_from count pasts ≡ first_entries k pasts) × IsLongest count k pasts
unfolding entries_from
entries_from-IsLongest count [] h = (0, refl, (omega arith, inl refl))
entries_from-IsLongest count (past ∷ pasts) h =
    let n = length (entry_of past) / 4 in
    elim (Bool-cases (ltb max_context_tokens (count + n))) [
      | inl over ↦ (0, rw (entries_from, over) refl, (omega arith, inr (omega arith, ground arith)))
      | inr within ↦
          let (k, kept, longest) = entries_from-IsLongest (count + n) pasts (ground arith) in
          (
            suc k,
            rw (entries_from, within, kept) refl,
            (
              omega (arith, longest.0),
              elim longest.1 [
                | inl all ↦ inl (ap suc all)
                | inr (fewer, more) ↦ inr (omega (arith, fewer), omega (arith, more))
              ],
            ),
          )
    ]

-- The context of one or more past decisions is the heading, the entries of the first `k` of them in
-- the order of the query, and the closing line, for a `k` that is as large as the budget allows:
-- these entries take at most 500 tokens, as the code counts them, and they are the entries of all
-- decisions, or with the entry of the next decision they would take more than 500.
pub build_rag_context-IsLongest :
    (past : Past) (pasts : List Past)
    → (k : ℕ) × (build_rag_context (past ∷ pasts)
        ≡ join_lines (
            codes "=== RELEVANT PAST DECISIONS (learned from experience) ==="
            ∷ (first_entries k (past ∷ pasts) ++ (codes "=== END HISTORICAL CONTEXT ===" ∷ []))))
      × IsLongest 0 k (past ∷ pasts)
unfolding build_rag_context
build_rag_context-IsLongest past pasts =
    let (k, kept, longest) = entries_from-IsLongest 0 (past ∷ pasts) (omega arith) in
    (k, rw kept refl, longest)
