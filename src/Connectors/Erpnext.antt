-- ===== src/Connectors/Erpnext.antt =====
-- core/erpnext_connector.py. The answers of the ERP are arguments, `none` where a request raises; the
-- filter for the last 365 days is part of the request.
use multiagent_platform_v.Prelude.{
  Bool, List, Option, String, [], add_ℤ, diff, false, get_or, if◌then◌else◌, is_in, keep, leb_text,
  ltb_ℤ, negsuc, none, pos, scale_ℤ, some, sort_by, suc, zero, ℕ, ℤ, ◌/◌, ◌==◌, ◌||◌, ◌∷◌,
}
use multiagent_platform_v.Connectors.{
  Fetched, ProductionConfig, failed, fetched, http_failure, value_error,
}

pub record Invoice : Type 0 where
  pub name : String
  pub posting_date : String

-- a missing quantity is 0
pub record InvoiceItem : Type 0 where
  pub item_code : Option String
  pub qty : ℤ

-- `sales_by_date`, a dict in the order in which its dates came
abbrev pub SalesByDate : Type 0
SalesByDate = List (String × ℤ)

unfoldable pub add_sale : (date : String) → (qty : ℤ) → SalesByDate → SalesByDate
add_sale date qty [] = (date, qty) ∷ []
add_sale date qty ((d, total) ∷ sales) =
    if d == date then (d, add_ℤ total qty) ∷ sales else (d, total) ∷ add_sale date qty sales

abbrev pub is_item : (product_id : String) → InvoiceItem → Bool
is_item product_id item = elim item.item_code [ none ↦ false | some code ↦ code == product_id ]

unfoldable pub add_items : (product_id date : String) → List InvoiceItem → SalesByDate → SalesByDate
unfolding add_sale
add_items product_id date [] sales = sales
add_items product_id date (item ∷ items) sales =
    add_items product_id date items
      (if is_item product_id item then add_sale date item.qty sales else sales)

abbrev pub items_of : Option (List InvoiceItem) → List InvoiceItem
items_of answer = get_or answer []

-- the loop over the invoices; `_get_invoice_items` is empty where its request raises
unfoldable pub add_invoices :
    (product_id : String)
    → (detail : String → Option (List InvoiceItem)) → List Invoice
    → SalesByDate
    → SalesByDate
unfolding add_items
add_invoices product_id detail [] sales = sales
add_invoices product_id detail (invoice ∷ invoices) sales =
    add_invoices product_id detail invoices
      (add_items product_id invoice.posting_date (items_of (detail invoice.name)) sales)

abbrev pub leb_row : String × ℤ → String × ℤ → Bool
leb_row a b = leb_text a.0 b.0

unfoldable pub erpnext_fetch_sales :
    (product_id : String)
    → (detail : String → Option (List InvoiceItem)) → (invoices : Option (List Invoice))
    → Fetched SalesByDate
unfolding add_invoices
erpnext_fetch_sales product_id detail none = failed http_failure
erpnext_fetch_sales product_id detail (some invoices) =
    fetched (sort_by leb_row (add_invoices product_id detail invoices []))

pub record WarehouseBin : Type 0 where
  pub warehouse : String
  pub actual_qty : ℤ

abbrev pub total_of : List WarehouseBin → ℤ
total_of [] = pos 0
total_of (bin ∷ bins) = add_ℤ bin.actual_qty (total_of bins)

abbrev pub is_finished : WarehouseBin → Bool
is_finished bin = is_in "Finished" bin.warehouse || is_in "Stores" bin.warehouse

abbrev pub is_transit : WarehouseBin → Bool
is_transit bin = is_in "Transit" bin.warehouse

-- `x or y` on numbers
abbrev pub or_else : ℤ → ℤ → ℤ
or_else (pos zero) y = y
or_else x y = x

-- `int(n / d)`, towards 0
abbrev pub truncate : ℤ → (d : ℕ) → ℤ
truncate (pos n) d = pos (n / d)
truncate (negsuc n) d = diff 0 (suc n / d)

unfoldable pub config_of_bins : List WarehouseBin → ProductionConfig
config_of_bins bins =
    let total_stock = total_of bins in
    let finished_stock = total_of (keep is_finished bins) in
    let packaging_stock = total_of (keep is_transit bins) in
    record {
      daily_capacity = if ltb_ℤ (pos 0) total_stock then truncate total_stock 30 else pos 500;
      current_stock = or_else finished_stock total_stock;
      packaging_stock = or_else packaging_stock (truncate (scale_ℤ 3 total_stock) 10);
      supplier_lead_time = pos 5;
    }

unfoldable pub erpnext_fetch_production_config :
    (bins : Option (List WarehouseBin)) → Fetched ProductionConfig
unfolding config_of_bins
erpnext_fetch_production_config none = failed http_failure
erpnext_fetch_production_config (some []) = failed value_error
erpnext_fetch_production_config (some (bin ∷ bins)) = fetched (config_of_bins (bin ∷ bins))
