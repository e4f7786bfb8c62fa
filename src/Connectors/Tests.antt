-- ===== src/Connectors/Tests.antt =====
-- The connectors at concrete tables and invoices.
use multiagent_platform_v.Prelude.{
  IsSortedBy, List, Option, String, [], arith, if◌then◌else◌, insert_by, leb_text, none, pos, refl,
  some, sort_by, ℤ, ◌==◌, ◌∷◌, ◌≡◌,
}
use multiagent_platform_v.Connectors.{fetched, sorted}
use multiagent_platform_v.Connectors.Tables.{
  csv_fetch_sales, get_item, sale_of, sales_in, sheets_fetch_sales,
}
use multiagent_platform_v.Connectors.Erpnext.{
  Invoice, InvoiceItem, add_invoices, add_items, add_sale, erpnext_fetch_sales, leb_row,
}
use multiagent_platform_v.Connectors.Agreement.{csv_fetch_sales-eq-sheets_fetch_sales}
use multiagent_platform_v.Connectors.Daily.{IsDistinct, erpnext_fetch_sales-daily, on_date, sold_on}

abbrev headers : List String
headers = "date" ∷ "product_id" ∷ "quantity" ∷ []

abbrev rows : List (List String)
rows = ("2026-03-02" ∷ "HARISSA-140G" ∷ "7" ∷ []) ∷ ("2026-03-01" ∷ "HARISSA-140G" ∷ "5" ∷ []) ∷ []

-- the numbers of these rows
abbrev digit : String → Option ℤ
digit text = if text == "7" then some (pos 7) else if text == "5" then some (pos 5) else none

-- in the order of the dates
read :
    csv_fetch_sales digit digit "HARISSA-140G" (some (headers ∷ rows))
    ≡ fetched (
        record { ds = some "2026-03-01"; y = pos 5 }
        ∷ record { ds = some "2026-03-02"; y = pos 7 }
        ∷ [])
unfolding csv_fetch_sales sales_in sale_of get_item sorted sort_by insert_by leb_text
read = refl

same_table :
    csv_fetch_sales digit digit "HARISSA-140G" (some (headers ∷ rows))
    ≡ sheets_fetch_sales digit digit "HARISSA-140G" (some (headers ∷ rows))
same_table =
    csv_fetch_sales-eq-sheets_fetch_sales digit digit "HARISSA-140G" headers rows (omega arith)
      (refl, (refl, tt))

abbrev invoices : List Invoice
invoices =
    record { name = "SINV-2"; posting_date = "2026-03-02" }
    ∷ record { name = "SINV-1"; posting_date = "2026-03-01" }
    ∷ record { name = "SINV-3"; posting_date = "2026-03-02" }
    ∷ []

-- one invoice of the second day cannot be read
abbrev detail : String → Option (List InvoiceItem)
detail name =
    if name == "SINV-3"
    then none
    else some (record { item_code = some "HARISSA-140G"; qty = pos 5 } ∷ [])

collected :
    add_invoices "HARISSA-140G" detail invoices []
    ≡ ("2026-03-02", pos 5) ∷ ("2026-03-01", pos 5) ∷ []
unfolding add_invoices add_items add_sale
collected = refl

erpnext_fetch_sales-daily_example :
    let rows = sort_by leb_row (add_invoices "HARISSA-140G" detail invoices []) in
    (erpnext_fetch_sales "HARISSA-140G" detail (some invoices) ≡ fetched rows)
    × IsSortedBy leb_row rows
    × IsDistinct rows
    × ((date : String) → on_date date rows ≡ sold_on "HARISSA-140G" detail date invoices none)
erpnext_fetch_sales-daily_example = erpnext_fetch_sales-daily "HARISSA-140G" detail invoices
