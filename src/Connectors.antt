-- ===== src/Connectors.antt =====
-- core/connectors.py: the sources from which a tenant's sales and stock can be read. No agent calls
-- them. What a file or a request yields is an argument, and so are `float` and `int` on a text;
-- quantities are whole units. An exception is a result.
pub mod Tables
pub mod Erpnext
pub mod Agreement
pub mod Daily
mod Tests
use multiagent_platform_v.Prelude.{
  Bool, List, Option, String, [], false, get_or, if◌then◌else◌, leb_text, none, some, sort_by, true,
  ℤ, ◌==◌, ◌∷◌,
}

pub data Failure : Type 0 where
  -- FileNotFoundError, KeyError, ValueError, TypeError, an error of httpx
  file_not_found : Failure
  key_error : (key : String) → Failure
  value_error type_error http_failure : Failure

pub data Fetched {ℓ} (A : Type ℓ) : Type ℓ where
  fetched : A → Fetched A
  failed : Failure → Fetched A

infixl 5 ◌>>=◌
abbrev pub ◌>>=◌ {ℓ κ} : {A : Type ℓ} {B : Type κ} → Fetched A → (A → Fetched B) → Fetched B
fetched a >>= f = f a
failed e >>= f = failed e

-- {"ds": date, "y": quantity}; a date that is missing in a row of a CSV file is None
pub record Sale : Type 0 where
  pub ds : Option String
  pub y : ℤ

pub record ProductionConfig : Type 0 where
  pub daily_capacity : ℤ
  pub current_stock : ℤ
  pub packaging_stock : ℤ
  pub supplier_lead_time : ℤ

-- the keys of CONNECTOR_MAP
pub data ConnectorType : Type 0 where
  csv google_sheets rest_api erpnext : ConnectorType

-- `none` is the ValueError
unfoldable pub get_connector : String → Option ConnectorType
get_connector name =
    if name == "csv"
    then some csv
    else if name == "google_sheets"
    then some google_sheets
    else if name == "rest_api"
    then some rest_api
    else if name == "erpnext"
    then some erpnext
    else none

-- `x["ds"] <= y["ds"]`
abbrev pub leb_date : Sale → Sale → Bool
leb_date a b = leb_text (get_or a.ds "") (get_or b.ds "")

abbrev pub all_dated : List Sale → Bool
all_dated [] = true
all_dated (sale ∷ sales) = elim sale.ds [ none ↦ false | some _ ↦ all_dated sales ]

-- `sorted(rows, key=lambda x: x["ds"])`: None cannot be compared
unfoldable pub sorted : List Sale → Fetched (List Sale)
sorted [] = fetched []
sorted (sale ∷ []) = fetched (sale ∷ [])
sorted (a ∷ b ∷ sales) =
    if all_dated (a ∷ b ∷ sales)
    then fetched (sort_by leb_date (a ∷ b ∷ sales))
    else failed type_error
