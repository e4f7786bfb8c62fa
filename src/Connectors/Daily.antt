-- ===== src/Connectors/Daily.antt =====
-- What ERPNext's invoices are collected to: one row for a date, in the order of the dates.
use multiagent_platform_v.Prelude.{
  Bool-cases, IsSortedBy, List, Option, String, [], add_ℤ, ap, arith, eq_iff, if◌then◌else◌, inl,
  inr, insert_by, leb_text, leb_text-total, leb_text_trans, leb_text_ne, none, refl, some, sort_by,
  sort_by-IsSortedBy, ℤ, ◌==◌, ◌∙◌, ◌∷◌, ◌≡◌, ◌≢◌,
}
use multiagent_platform_v.Connectors.{fetched}
use multiagent_platform_v.Connectors.Erpnext.{
  Invoice, InvoiceItem, SalesByDate, add_invoices, add_items, add_sale, erpnext_fetch_sales,
  is_item, items_of, leb_row,
}

-- the quantity of a date

abbrev pub on_date : String → SalesByDate → Option ℤ
on_date date [] = none
on_date date ((d, total) ∷ sales) = if d == date then some total else on_date date sales

-- no date stands twice
abbrev pub IsDistinct : SalesByDate → Type 0
IsDistinct [] = Unit
IsDistinct ((d, total) ∷ sales) = (on_date d sales ≡ none) × IsDistinct sales

-- the items of one date alone: what was sold so far, and one more sale
abbrev pub sold_more : ℤ → Option ℤ → Option ℤ
sold_more qty none = some qty
sold_more qty (some total) = some (add_ℤ total qty)

abbrev pub sold_items : (product_id : String) → List InvoiceItem → Option ℤ → Option ℤ
sold_items product_id [] sold = sold
sold_items product_id (item ∷ items) sold =
    sold_items product_id items (if is_item product_id item then sold_more item.qty sold else sold)

abbrev pub sold_on :
    (product_id : String)
    → (detail : String → Option (List InvoiceItem)) → (date : String) → List Invoice
    → Option ℤ
    → Option ℤ
sold_on product_id detail date [] sold = sold
sold_on product_id detail date (invoice ∷ invoices) sold = sold_on product_id detail date invoices (
    if invoice.posting_date == date
    then sold_items product_id (items_of (detail invoice.name)) sold
    else sold)

on_date-add_sale :
    (date d : String) (qty : ℤ) (sales : SalesByDate)
    → on_date date (add_sale d qty sales)
      ≡ (if d == date then sold_more qty (on_date date sales) else on_date date sales)
unfolding add_sale
on_date-add_sale date d qty [] = refl
on_date-add_sale date d qty ((e, total) ∷ sales) =
    ground (arith, eq_iff e d, eq_iff d date, eq_iff e date, on_date-add_sale date d qty sales)

add_sale-IsDistinct :
    (d : String) (qty : ℤ) (sales : SalesByDate)
    → IsDistinct sales
    → IsDistinct (add_sale d qty sales)
unfolding add_sale
add_sale-IsDistinct d qty [] h = (refl, tt)
add_sale-IsDistinct d qty ((e, total) ∷ sales) h = elim (Bool-cases (e == d)) [
  | inl same ↦ rw (add_sale, same) h
  | inr other ↦
      rw (add_sale, other)
        (
          on_date-add_sale e d qty sales ∙ ground (arith, eq_iff e d, eq_iff d e, h.0),
          add_sale-IsDistinct d qty sales h.1,
        )
]

module _ (product_id : String) where
  on_date-add_items :
      (date d : String) (items : List InvoiceItem) (sales : SalesByDate)
      → on_date date (add_items product_id d items sales) ≡ (
          if d == date
          then sold_items product_id items (on_date date sales)
          else on_date date sales)
  unfolding add_items
  on_date-add_items date d [] sales = ground arith
  on_date-add_items date d (item ∷ items) sales = elim (Bool-cases (is_item product_id item)) [
    | inl mine ↦
        rw (add_items, mine)
          (on_date-add_items date d items (add_sale d item.qty sales)
            ∙ ground (arith, mine, on_date-add_sale date d item.qty sales))
    | inr other ↦
        rw (add_items, other) (on_date-add_items date d items sales ∙ ground (arith, other))
  ]

  add_items-IsDistinct :
      (d : String) (items : List InvoiceItem) (sales : SalesByDate)
      → IsDistinct sales
      → IsDistinct (add_items product_id d items sales)
  unfolding add_items
  add_items-IsDistinct d [] sales h = h
  add_items-IsDistinct d (item ∷ items) sales h = elim (Bool-cases (is_item product_id item)) [
    | inl mine ↦
        rw (add_items, mine)
          (add_items-IsDistinct d items (add_sale d item.qty sales)
            (add_sale-IsDistinct d item.qty sales h))
    | inr other ↦ rw (add_items, other) (add_items-IsDistinct d items sales h)
  ]

  module _ (detail : String → Option (List InvoiceItem)) where
    on_date-add_invoices :
        (date : String) (invoices : List Invoice) (sales : SalesByDate)
        → on_date date (add_invoices product_id detail invoices sales)
          ≡ sold_on product_id detail date invoices (on_date date sales)
    unfolding add_invoices
    on_date-add_invoices date [] sales = refl
    on_date-add_invoices date (invoice ∷ invoices) sales =
        let items = items_of (detail invoice.name) in
        on_date-add_invoices date invoices (add_items product_id invoice.posting_date items sales)
        ∙ ap (sold_on product_id detail date invoices)
            (on_date-add_items date invoice.posting_date items sales)

    add_invoices-IsDistinct :
        (invoices : List Invoice) (sales : SalesByDate)
        → IsDistinct sales
        → IsDistinct (add_invoices product_id detail invoices sales)
    unfolding add_invoices
    add_invoices-IsDistinct [] sales h = h
    add_invoices-IsDistinct (invoice ∷ invoices) sales h =
        add_invoices-IsDistinct invoices
          (add_items product_id invoice.posting_date (items_of (detail invoice.name)) sales)
          (add_items-IsDistinct invoice.posting_date (items_of (detail invoice.name)) sales h)

-- sorting by date changes no quantity
on_date-insert_by :
    (date : String) (row : String × ℤ) (sales : SalesByDate)
    → on_date date (insert_by leb_row row sales) ≡ on_date date (row ∷ sales)
unfolding insert_by
on_date-insert_by date (d, n) [] = refl
on_date-insert_by date (d, n) ((e, m) ∷ sales) = elim (Bool-cases (leb_text d e)) [
  | inl before ↦ rw (insert_by, before) refl
  | inr after ↦
      let differ : d ≢ e = leb_text_ne d e after in
      rw (insert_by, after)
        (ground (arith, eq_iff d date, eq_iff e date, differ, on_date-insert_by date (d, n) sales))
]

on_date-sort_by :
    (date : String) (sales : SalesByDate)
    → on_date date (sort_by leb_row sales) ≡ on_date date sales
unfolding sort_by
on_date-sort_by date [] = refl
on_date-sort_by date ((d, n) ∷ sales) =
    on_date-insert_by date (d, n) (sort_by leb_row sales)
    ∙ ap (λ rest. if d == date then some n else rest) (on_date-sort_by date sales)

insert_by-IsDistinct :
    (row : String × ℤ) (sales : SalesByDate)
    → on_date row.0 sales ≡ none
    → IsDistinct sales
    → IsDistinct (insert_by leb_row row sales)
unfolding insert_by
insert_by-IsDistinct (d, n) [] new h = (refl, tt)
insert_by-IsDistinct (d, n) ((e, m) ∷ sales) new h = elim (Bool-cases (leb_text d e)) [
  | inl before ↦ rw (insert_by, before) (new, h)
  | inr after ↦
      rw (insert_by, after)
        (
          on_date-insert_by e (d, n) sales ∙ ground (arith, eq_iff d e, eq_iff e d, new, h.0),
          insert_by-IsDistinct (d, n) sales (ground (arith, eq_iff e d, new)) h.1,
        )
]

sort_by-IsDistinct : (sales : SalesByDate) → IsDistinct sales → IsDistinct (sort_by leb_row sales)
unfolding sort_by
sort_by-IsDistinct [] h = tt
sort_by-IsDistinct ((d, n) ∷ sales) h =
    insert_by-IsDistinct (d, n) (sort_by leb_row sales) (on_date-sort_by d sales ∙ h.0)
      (sort_by-IsDistinct sales h.1)

module _ (product_id : String) (detail : String → Option (List InvoiceItem)) where
  -- The sales that are fetched from ERPNext are in the order of their dates and no date comes
  -- twice; and the quantity of each date is what one gets from the invoices of that date alone,
  -- taking the items of the product, where an invoice that cannot be read counts as empty.
  pub erpnext_fetch_sales-daily :
      (invoices : List Invoice)
      → let rows = sort_by leb_row (add_invoices product_id detail invoices []) in
        (erpnext_fetch_sales product_id detail (some invoices) ≡ fetched rows)
        × IsSortedBy leb_row rows
        × IsDistinct rows
        × ((date : String) → on_date date rows ≡ sold_on product_id detail date invoices none)
  unfolding erpnext_fetch_sales
  erpnext_fetch_sales-daily invoices =
      let collected = add_invoices product_id detail invoices [] in
      (
        refl,
        sort_by-IsSortedBy leb_row (λ a b c. leb_text_trans a.0 b.0 c.0)
            (λ a b. leb_text-total a.0 b.0) collected,
        sort_by-IsDistinct collected (add_invoices-IsDistinct product_id detail invoices [] tt),
        λ date.
            on_date-sort_by date collected
            ∙ on_date-add_invoices product_id detail date invoices [],
      )
