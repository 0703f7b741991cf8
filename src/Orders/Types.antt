-- ===== src/Orders/Types.antt =====
-- The rows that orders/orders.service.ts and dining-tables/dining-tables.service.ts keep. Keys, menu
-- options and reasons are numbers, prices are in cents. Notes are texts without logic and left out.
use coffee_shop_be.Prelude.{ℕ, Bool, true, false, Option, List}
use coffee_shop_be.Cash.Types
use coffee_shop_be.Inventory.Movement
use coffee_shop_be.Inventory.Reservations.{Ingredient}
use coffee_shop_be.Orders.Selection.{MenuItem, SelectedOption}

pub data TableStatus : Type 0 where
  empty occupied reserved : TableStatus

pub data SessionStatus : Type 0 where
  active completed cancelled : SessionStatus

pub data ServeStatus : Type 0 where
  pending cooking ready served cancelled : ServeStatus

pub data PaymentStatus : Type 0 where
  unpaid paid voided partially_refunded refunded : PaymentStatus

pub record Table : Type 0 where
  pub id : ℕ
  pub status : TableStatus
  pub deleted : Bool

-- `is_online` is a session that an online order request refers to.
pub record Session : Type 0 where
  pub id : ℕ
  pub table_id : Option ℕ
  pub employee_id : ℕ
  pub shift_id : Option ℕ
  pub guest_count : Option ℕ
  pub is_online : Bool
  pub status : SessionStatus

pub record OrderItem : Type 0 where
  pub id : ℕ
  pub order_session_id : ℕ
  pub menu_item_id : ℕ
  pub quantity : ℕ
  pub price_at_time : ℕ
  pub selected_options : List SelectedOption
  pub is_snapshotted : Bool
  pub serve_status : ServeStatus
  pub is_paid : Bool
  pub invoice_id : Option ℕ
  pub ready_at : Option ℕ

pub record Invoice : Type 0 where
  pub id : ℕ
  pub order_session_id : ℕ
  pub payment_status : PaymentStatus
  pub created_at : ℕ
  pub pickup_code_version : Option ℕ
  pub pickup_code_issued_at : Option ℕ

pub record Remake : Type 0 where
  pub original_item_id : ℕ
  pub replacement_item_id : ℕ
  pub employee_id : ℕ
  pub reason : ℕ
  pub idempotency_key : ℕ
  pub request_hash : ℕ

pub record Ticket : Type 0 where
  pub id : ℕ
  pub station_id : ℕ
  pub order_session_id : ℕ
  pub due_at : ℕ
  pub available_at : Option ℕ
  pub created_at : ℕ

pub record TicketItem : Type 0 where
  pub order_item_id : ℕ
  pub ticket_id : ℕ
  pub quantity : ℕ
  pub selected_options : List SelectedOption

pub data Action : Type 0 where
  item_status_updated item_cancelled session_cancelled table_transferred : Action
  tables_merged table_split session_completed table_cleared item_remade : Action
  pickup_code_issued pickup_code_rotated pickup_code_revoked : Action

pub record ActionLog : Type 0 where
  pub employee_id : ℕ
  pub action : Action
  pub subject : ℕ

pub record Db : Type 0 where
  pub next_id : ℕ
  pub cash : Types.Db
  pub inventory : Movement.Db
  pub recipe_ingredients : List Ingredient
  pub menu_items : List MenuItem
  pub tables : List Table
  pub sessions : List Session
  pub order_items : List OrderItem
  pub invoices : List Invoice
  pub remakes : List Remake
  pub tickets : List Ticket
  pub ticket_items : List TicketItem
  pub logs : List ActionLog

abbrev pub is_empty : TableStatus → Bool
is_empty empty = true
is_empty _ = false

abbrev pub is_occupied : TableStatus → Bool
is_occupied occupied = true
is_occupied _ = false

abbrev pub is_active : SessionStatus → Bool
is_active active = true
is_active _ = false

abbrev pub is_completed : SessionStatus → Bool
is_completed completed = true
is_completed _ = false

abbrev pub is_called_off : SessionStatus → Bool
is_called_off SessionStatus.cancelled = true
is_called_off _ = false

abbrev pub is_payment_paid : PaymentStatus → Bool
is_payment_paid paid = true
is_payment_paid _ = false

-- `===` of two serve statuses.
abbrev pub same_status : ServeStatus → ServeStatus → Bool
same_status pending pending = true
same_status cooking cooking = true
same_status ready ready = true
same_status served served = true
same_status ServeStatus.cancelled ServeStatus.cancelled = true
same_status _ _ = false

abbrev pub table_key : Table → ℕ
table_key t = t.id

abbrev pub session_key : Session → ℕ
session_key s = s.id

abbrev pub order_item_key : OrderItem → ℕ
order_item_key i = i.id

abbrev pub invoice_key : Invoice → ℕ
invoice_key i = i.id

abbrev pub ticket_key : Ticket → ℕ
ticket_key t = t.id

abbrev pub ticket_item_key : TicketItem → ℕ
ticket_item_key t = t.order_item_id

abbrev pub menu_item_key : MenuItem → ℕ
menu_item_key m = m.id
