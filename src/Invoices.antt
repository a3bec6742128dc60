-- ===== src/Invoices.antt =====
-- Invoices: src/invoices/invoices.service.ts. The printed invoice number is left out.
use subscription_billing_eng.Prelude.{
  ℕ, ◌+◌, ◌*◌, Bool, String, Option, none, some, List, map, foldl, ◌&&◌, str_eq, or_else,
}
use subscription_billing_eng.Prelude.Table.{find}
use subscription_billing_eng.Entities.{Invoice, InvoiceItem, InvoiceStatus}
use subscription_billing_eng.World.{
  World, Action, Error, or_throw, save_invoice, insert_invoice, next_id,
}

pub record ItemInput : Type 0 where
  pub description : String
  pub quantity : ℕ
  pub unit_amount : ℕ

pub record CreateInvoiceInput : Type 0 where
  pub merchant_id : String
  pub customer_id : String
  pub subscription_id : Option String
  pub items : List ItemInput
  pub currency : Option String

-- An input line with its total.
abbrev pub new_item : ItemInput → InvoiceItem
new_item i = record {
  description = i.description;
  quantity = i.quantity;
  unit_amount = i.unit_amount;
  total_amount = i.unit_amount * i.quantity;
}

-- `items.reduce(...)`.
unfoldable pub subtotal_of : List InvoiceItem → ℕ
subtotal_of items = foldl (λ sum item. sum + item.total_amount) 0 items

unfoldable pub new_invoice : CreateInvoiceInput → World → Invoice
new_invoice input w =
    let items = map new_item input.items in
    record {
      id = next_id w;
      merchant_id = input.merchant_id;
      customer_id = input.customer_id;
      subscription_id = input.subscription_id;
      status = InvoiceStatus.pending;
      subtotal = subtotal_of items;
      tax = 0;
      total = subtotal_of items;
      currency = or_else input.currency "NGN";
      due_date = w.now;
      paid_at = none;
      items = items;
    }

-- `create`.
unfoldable pub create_invoice : CreateInvoiceInput → World → Invoice × World
create_invoice input w = let i = new_invoice input w in (i, insert_invoice i w)

-- `where: { id, merchantId }`.
abbrev pub is_invoice : String → String → Invoice → Bool
is_invoice m id i = str_eq i.id id && str_eq i.merchant_id m

-- `findOne`.
unfoldable pub find_invoice : String → String → Action Invoice
find_invoice m id w =
    or_throw (find (is_invoice m id) w.invoices) (Error.not_found "Invoice not found") w

-- `markPaid`.
unfoldable pub mark_paid : Invoice → World → Invoice × World
mark_paid i w =
    let paid = record i { status = InvoiceStatus.paid; paid_at = some w.now } in
    (paid, save_invoice paid w)

-- `markFailed`.
unfoldable pub mark_failed : Invoice → World → Invoice × World
mark_failed i w =
    let failed = record i { status = InvoiceStatus.failed } in (failed, save_invoice failed w)
