-- ===== src/Payment/Machine.antt =====
-- The operations of the payment and package services as commands, and the sequences of them.
use link_up_server.Base.{ℕ, Bool}
use link_up_server.Text.{Text}
use link_up_server.Payment.Package.{Db, increment_slots_used, decrement_slots_used}
use link_up_server.Payment.Query.{Params, Values}
use link_up_server.Payment.Config.{Env, Faults}
use link_up_server.Payment.Settling.{Fresh}
use link_up_server.Payment.Vnpay.{Library, create_vnpay_payment, process_vnpay_callback}
use link_up_server.Payment.Momo.{MomoReply, create_momo_payment, process_momo_callback}
use link_up_server.Payment.Service.{subscribe_package, process_expired_subscriptions}

pub data Command : Type 0 where
  create_vnpay : Faults → ℕ → Text → ℕ → ℕ → Text → Command
  create_momo : Faults → MomoReply → Bool → ℕ → Text → Text → ℕ → ℕ → Command
  vnpay_callback : Faults → Fresh → Values → Command
  momo_callback : Faults → Fresh → Params → Command
  subscribe : Faults → Fresh → ℕ → ℕ → Command
  expire_all : Bool → (ℕ → Bool) → (ℕ → Bool) → ℕ → Command
  use_slot free_slot : ℕ → Command

unfoldable pub step : Library → Env → Command → Db → Db
step lib env (create_vnpay faults now ref user id ip) db =
    (create_vnpay_payment lib env faults now ref user id ip db).1
step lib env (create_momo faults reply fails now order request user id) db =
    (create_momo_payment env faults reply fails now order request user id db).1
step lib env (vnpay_callback faults fresh values) db =
    (process_vnpay_callback lib env faults fresh values db).1
step lib env (momo_callback faults fresh values) db =
    (process_momo_callback lib env faults fresh values db).1
step lib env (subscribe faults fresh user id) db = (subscribe_package faults fresh user id db).1
step lib env (expire_all find_fails expire_fails downgrade_fails now) db =
    (process_expired_subscriptions find_fails expire_fails downgrade_fails now db).1
step lib env (use_slot id) db = increment_slots_used id db
step lib env (free_slot id) db = decrement_slots_used id db

-- Any number of commands lead from one state of the tables to another.
pub data Steps (lib : Library) (env : Env) (db : Db) : Db → Type 0 where
  done : Steps lib env db db
  next : (c : Command) (db' : Db) → Steps lib env db db' → Steps lib env db (step lib env c db')
