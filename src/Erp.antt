-- ===== src/Erp.antt =====
-- core/erpuiux_connector.py: the three queries that the agents send, the list of every item, and the
-- ping. The ERP's answers are arguments, `none` where the request raises; names, warehouses and
-- dates, which are for display, are left out. Quantities are whole units.
use multiagent_platform_v.Prelude.{
  Bool, List, Option, [], add_ℤ, eqb, false, get_or, if◌then◌else◌, leb_ℤ, length, negsuc, none,
  not, pos, round_ℤ, scale_ℤ, some, true, ℕ, ℤ, ◌&&◌, ◌∷◌,
}

-- a row of "Bin", and the safety stock of an "Item"; a missing number is 0

pub record Bin : Type 0 where
  pub actual_qty : ℤ
  pub projected_qty : Option ℤ
  pub reserved_qty : ℤ

pub data StockStatus : Type 0 where
  ok warning rupture unknown : StockStatus

-- "erp_live", "erp_fallback", "erp_error"
pub data Source : Type 0 where
  erp_live erp_fallback erp_error : Source

pub record Stock : Type 0 where
  pub actual_qty : ℤ
  pub projected_qty : ℤ
  pub reserved_qty : ℤ
  pub status : StockStatus
  pub source : Source

abbrev pub empty_stock : Stock
empty_stock = record {
  actual_qty = pos 0;
  projected_qty = pos 0;
  reserved_qty = pos 0;
  status = unknown;
  source = erp_fallback;
}

abbrev pub is_zero : ℤ → Bool
is_zero (pos n) = eqb n 0
is_zero (negsuc _) = false

unfoldable pub status_of_stock : (actual_qty safety_stock : ℤ) → StockStatus
status_of_stock actual_qty safety_stock =
    if is_zero actual_qty
    then rupture
    else if not (is_zero safety_stock) && leb_ℤ actual_qty safety_stock
    then warning
    else ok

-- the answers to the two requests; the second is sent if the first has a row
unfoldable pub get_stock : (bins : Option (List Bin)) → (safety_stock : Option ℤ) → Stock
unfolding status_of_stock
get_stock none safety = empty_stock
get_stock (some []) safety = empty_stock
get_stock (some (bin ∷ bins)) none = empty_stock
get_stock (some (bin ∷ bins)) (some safety_stock) = record {
  actual_qty = bin.actual_qty;
  projected_qty = get_or bin.projected_qty bin.actual_qty;
  reserved_qty = bin.reserved_qty;
  status = status_of_stock bin.actual_qty safety_stock;
  source = erp_live;
}

pub record Sales : Type 0 where
  pub qty_sold_30d : ℤ
  pub avg_daily : ℤ  -- in hundredths
  pub source : Source

unfoldable pub get_sales_last_30_days : (total_qty : Option ℤ) → Sales
get_sales_last_30_days none = record { qty_sold_30d = pos 0; avg_daily = pos 0; source = erp_error }
get_sales_last_30_days (some total_qty) = record {
  qty_sold_30d = total_qty;
  avg_daily = round_ℤ (scale_ℤ 100 total_qty) (pos 30);
  source = erp_live;
}

pub record PendingOrders : Type 0 where
  pub pending_qty : ℤ
  pub orders_count : ℕ
  pub source : Source

abbrev pub total : List ℤ → ℤ
total [] = pos 0
total (qty ∷ qtys) = add_ℤ qty (total qtys)

unfoldable pub get_pending_orders : (orders : Option (List ℤ)) → PendingOrders
get_pending_orders none = record { pending_qty = pos 0; orders_count = 0; source = erp_error }
get_pending_orders (some qtys) = record {
  pending_qty = total qtys;
  orders_count = length qtys;
  source = erp_live;
}

-- the rows of every item, for the dashboard; the exception is caught
unfoldable pub get_all_stock {ℓ} : {A : Type ℓ} → (answer : Option (List A)) → List A
get_all_stock answer = get_or answer []

unfoldable pub ping {ℓ} : {A : Type ℓ} → (answer : Option A) → Bool
ping none = false
ping (some _) = true
