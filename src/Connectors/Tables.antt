-- ===== src/Connectors/Tables.antt =====
-- CSVConnector, GoogleSheetsConnector and RESTConnector of core/connectors.py. A table is the rows
-- that the reader yields, the headers first; every cell is a text.
use multiagent_platform_v.Prelude.{
  Bool, List, Option, String, [], false, if◌then◌else◌, keep, leb, length, map, none, pos, some, ℤ,
  ◌==◌, ◌∷◌,
}
use multiagent_platform_v.Registry.{lookup}
use multiagent_platform_v.Connectors.{
  Fetched, ProductionConfig, Sale, failed, fetched, file_not_found, http_failure, key_error, sorted,
  type_error, value_error, ◌>>=◌,
}

-- a dict with its items in order; a value may be None

abbrev pub Dict : Type 0
Dict = List (String × Option String)

-- `d.get(key)`, `none` where the key is missing: the last item counts
unfoldable pub get_item : String → Dict → Option (Option String)
get_item key [] = none
get_item key ((k, v) ∷ items) = elim (get_item key items) [
  | some w ↦ some w
  | none ↦ if k == key then some v else none
]

-- `dict(zip(headers, row))`
abbrev pub zip_row : List String → List String → Dict
zip_row [] row = []
zip_row (h ∷ headers) [] = []
zip_row (h ∷ headers) (v ∷ row) = (h, some v) ∷ zip_row headers row

-- a row of csv.DictReader: what is missing is None, and what is too much is not read
abbrev pub read_row : List String → List String → Dict
read_row [] row = []
read_row (h ∷ headers) [] = (h, none) ∷ read_row headers []
read_row (h ∷ headers) (v ∷ row) = (h, some v) ∷ read_row headers row

-- `d.get("product_id") == product_id`
abbrev pub is_product : String → Dict → Bool
is_product product_id row = elim (get_item "product_id" row) [
  | none ↦ false
  | some value ↦ elim value [ none ↦ false | some text ↦ text == product_id ]
]

-- `d[key]`
abbrev pub item : String → Dict → Fetched (Option String)
item key row = elim (get_item key row) [ none ↦ failed (key_error key) | some v ↦ fetched v ]

-- `float` and `int` of a value; `none` is the ValueError
abbrev pub number : (String → Option ℤ) → Option String → Fetched ℤ
number read none = failed type_error
number read (some text) = elim (read text) [ none ↦ failed value_error | some n ↦ fetched n ]

-- a row without fields is skipped by the reader
abbrev pub filled : List (List String) → List (List String)
filled [] = []
filled ([] ∷ rows) = filled rows
filled ((v ∷ row) ∷ rows) = (v ∷ row) ∷ filled rows

-- `if len(row) < 3: continue`
abbrev pub wide : List (List String) → List (List String)
wide = keep (λ row. leb 3 (length row))

module _ (float int : String → Option ℤ) where
  -- {"ds": row["date"], "y": float(row["quantity"])}
  unfoldable pub sale_of : Dict → Fetched Sale
  sale_of row = do
    date ← item "date" row
    quantity ← item "quantity" row
    y ← number float quantity
    fetched (record { ds = date; y = y })

  -- the loop over the rows
  unfoldable pub sales_in : (product_id : String) → List Dict → Fetched (List Sale)
  unfolding sale_of
  sales_in product_id [] = fetched []
  sales_in product_id (row ∷ rows) =
      let rest = sales_in product_id rows in
      if is_product product_id row
      then (sale_of row >>= λ sale. rest >>= λ sales. fetched (sale ∷ sales))
      else rest

  -- `none`: the file is not there
  unfoldable pub csv_fetch_sales :
      (product_id : String) → (table : Option (List (List String))) → Fetched (List Sale)
  unfolding sales_in
  csv_fetch_sales product_id none = failed file_not_found
  csv_fetch_sales product_id (some []) = fetched []
  csv_fetch_sales product_id (some (headers ∷ rows)) =
      sales_in product_id (map (read_row headers) (filled rows)) >>= sorted

  -- the answer to the request for the range, `none` where it raises
  unfoldable pub sheets_fetch_sales :
      (product_id : String) → (values : Option (List (List String))) → Fetched (List Sale)
  unfolding sales_in
  sheets_fetch_sales product_id none = failed http_failure
  sheets_fetch_sales product_id (some []) = fetched []
  sheets_fetch_sales product_id (some (headers ∷ rows)) =
      sales_in product_id (map (zip_row headers) (wide rows)) >>= sorted

  -- `int(record[key])`
  abbrev pub whole : String → Dict → Fetched ℤ
  whole key row = item key row >>= number int

  -- `int(record.get("lead_time", 4))`
  abbrev pub lead_time_of : Dict → Fetched ℤ
  lead_time_of row = elim (get_item "lead_time" row) [
    | none ↦ fetched (pos 4)
    | some v ↦ number int v
  ]

  unfoldable pub config_of : Dict → Fetched ProductionConfig
  config_of row = do
    daily_capacity ← whole "daily_capacity" row
    current_stock ← whole "current_stock" row
    packaging_stock ← whole "packaging_stock" row
    lead_time ← lead_time_of row
    fetched (record {
      daily_capacity = daily_capacity;
      current_stock = current_stock;
      packaging_stock = packaging_stock;
      supplier_lead_time = lead_time;
    })

  -- the first row of the product
  unfoldable pub config_in : (product_id : String) → List Dict → Fetched ProductionConfig
  unfolding config_of
  config_in product_id [] = failed value_error
  config_in product_id (row ∷ rows) =
      if is_product product_id row then config_of row else config_in product_id rows

  unfoldable pub sheets_fetch_production_config :
      (product_id : String) → (values : Option (List (List String))) → Fetched ProductionConfig
  unfolding config_in
  sheets_fetch_production_config product_id none = failed http_failure
  sheets_fetch_production_config product_id (some []) = failed value_error
  sheets_fetch_production_config product_id (some (headers ∷ rows)) =
      config_in product_id (map (zip_row headers) rows)

  -- every row that the API answers, in its order
  abbrev pub all_sales : List Dict → Fetched (List Sale)
  all_sales [] = fetched []
  all_sales (row ∷ rows) =
      sale_of row >>= λ sale. all_sales rows >>= λ sales. fetched (sale ∷ sales)

  unfoldable pub rest_fetch_sales : (rows : Option (List Dict)) → Fetched (List Sale)
  unfolding sale_of
  rest_fetch_sales none = failed http_failure
  rest_fetch_sales (some rows) = all_sales rows

-- what the JSON file holds for each product, `none` where that is empty or null; it is passed on as
-- it comes
unfoldable pub csv_fetch_production_config {ℓ} :
    {C : Type ℓ} → (product_id : String) → (file : Option (List (String × Option C))) → Fetched C
csv_fetch_production_config product_id none = failed file_not_found
csv_fetch_production_config product_id (some configs) = elim (lookup product_id configs) [
  | none ↦ failed value_error
  | some config ↦ elim config [ none ↦ failed value_error | some c ↦ fetched c ]
]

-- the answer of the API, as it comes
unfoldable pub rest_fetch_production_config {ℓ} : {C : Type ℓ} → (answer : Option C) → Fetched C
rest_fetch_production_config none = failed http_failure
rest_fetch_production_config (some config) = fetched config
