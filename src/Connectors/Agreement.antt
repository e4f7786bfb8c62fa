-- ===== src/Connectors/Agreement.antt =====
-- The CSV file and the Google sheet with the same cells.
use multiagent_platform_v.Prelude.{
  All, List, Option, String, [], ap, arith, keep, leb, length, map, refl, some, true, ℕ, ℤ, ◌∷◌,
  ◌≡◌, ◌≤◌,
}
use multiagent_platform_v.Connectors.{sorted, ◌>>=◌}
use multiagent_platform_v.Connectors.Tables.{
  csv_fetch_sales, filled, read_row, sales_in, sheets_fetch_sales, wide, zip_row,
}

-- each row has a cell for each header

abbrev pub IsRectangular : (width : ℕ) → List (List String) → Type 0
IsRectangular width rows = All (λ row. length row ≡ width) rows

read_row-eq-zip_row :
    (headers row : List String)
    → length row ≡ length headers
    → read_row headers row ≡ zip_row headers row
read_row-eq-zip_row [] row h = refl
read_row-eq-zip_row (k ∷ headers) [] h = absurd (omega (arith, h))
read_row-eq-zip_row (k ∷ headers) (v ∷ row) h =
    ap (◌∷◌ (k, some v)) (read_row-eq-zip_row headers row (omega (arith, h)))

rows_agree :
    (headers : List String) (rows : List (List String))
    → 3 ≤ length headers
    → IsRectangular (length headers) rows
    → map (read_row headers) (filled rows) ≡ map (zip_row headers) (wide rows)
rows_agree headers [] three all = refl
rows_agree headers ([] ∷ rows) three all = absurd (omega (arith, all.0))
rows_agree headers ((v ∷ row) ∷ rows) three all =
    let enough : leb 3 (length (v ∷ row)) ≡ true = rw all.0 (ground arith) in
    let kept : wide ((v ∷ row) ∷ rows) ≡ (v ∷ row) ∷ wide rows = rw (keep, enough) refl in
    rw (kept, read_row-eq-zip_row headers (v ∷ row) all.0)
      (ap (◌∷◌ (zip_row headers (v ∷ row))) (rows_agree headers rows three all.1))

module _ (float int : String → Option ℤ) (product_id : String) where
  -- A table of three columns or more in which every row has all of them is read alike from a CSV
  -- file and from a Google sheet: the same sales, or the same exception.
  pub csv_fetch_sales-eq-sheets_fetch_sales :
      (headers : List String) (rows : List (List String))
      → 3 ≤ length headers
      → IsRectangular (length headers) rows
      → csv_fetch_sales float int product_id (some (headers ∷ rows))
        ≡ sheets_fetch_sales float int product_id (some (headers ∷ rows))
  unfolding csv_fetch_sales sheets_fetch_sales
  csv_fetch_sales-eq-sheets_fetch_sales headers rows three all =
      ap (λ table. sales_in float int product_id table >>= sorted)
        (rows_agree headers rows three all)
