-- ===== src/Tests/Shop.antt =====
-- A merchant's stand in the database, with one payer, one order and one register, and a clock that
-- ticks at every reading.
use payme_mock.Base.{false, none, some, [], ◌∷◌}
use payme_mock.Base.Int.{ℤ, pos}
use payme_mock.Base.Int64.{add64}
use payme_mock.Base.Text.{text}
use payme_mock.Billing.Order.{Account, OrderStatus}
use payme_mock.Merchant.Ports.{Ports, Settings, CreateParams}
use payme_mock.Merchant.Laws.{Lawful}
use payme_mock.Postgres.{Database}
use payme_mock.Postgres.Wiring.{database_ports, database_ports-Lawful}

abbrev pub Shop : Type 0
Shop = Database × ℤ

abbrev tick : ℤ → ℤ × ℤ
tick time = (time, add64 time (pos 1))

abbrev pub shop_ports : Ports Shop
shop_ports = database_ports tick (pos 1)

abbrev pub shop_Lawful : Lawful shop_ports
shop_Lawful = database_ports-Lawful tick (pos 1)

abbrev pub shop_settings : Settings
shop_settings = record {
  transaction_timeout_millis = pos 43200000;
  account_field = text "phone";
  register_kind = text "topup";
  auto_register_accounts = false;
}

abbrev pub till : Account
till = record {
  id = pos 4;
  sandbox_id = pos 1;
  phone = [];
  login = [];
  name = text "register";
  balance = pos 1000;
  blocked = false;
}

abbrev pub tables : Database
tables = record {
  sandboxes = record { id = pos 1; kind = text "topup" } ∷ [];
  accounts =
      record {
        id = pos 5;
        sandbox_id = pos 1;
        phone = some (text "998901234567");
        login = none;
        name = [];
        balance = pos 0;
        blocked = false;
      }
      ∷ record {
        id = pos 4;
        sandbox_id = pos 1;
        phone = none;
        login = none;
        name = text "register";
        balance = pos 1000;
        blocked = false;
      }
      ∷ [];
  orders =
      record {
        id = pos 3;
        sandbox_id = pos 1;
        account_id = pos 5;
        amount = pos 700;
        status = OrderStatus.fresh;
        description = [];
      }
      ∷ [];
  transactions = [];
  transaction_events = [];
  balance_events = [];
  next_account = 6;
  next_order = 4;
  next_transaction = 1;
}

abbrev pub open_shop : Shop
open_shop = (tables, pos 100)

abbrev pub payment : CreateParams
payment = record {
  id = text "p1";
  time = pos 90;
  amount = pos 700;
  account = (text "phone", text "998901234567") ∷ [];
}
