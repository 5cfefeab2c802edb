-- ===== src/Payment/Amounts.antt =====
-- services/payment.service.go and services/momo.service.go: the amount of a transaction, from its
-- creation to its callback.
use link_up_server.Base.{ℕ, ◌*◌, ◌%◌, ◌≡◌, ◌<◌, true, arith}
use link_up_server.Text.{Text, codes, text_eq}
use link_up_server.Payment.Package.{AdPackage}
use link_up_server.Payment.Numbers.{two_64, format_int, parse_int-format_int}
use link_up_server.Payment.Query.{param}
use link_up_server.Payment.Config.{VnpayConfig}
use link_up_server.Payment.Vnpay.{Library, vnpay_params, vnpay_transaction, is_amount}
use link_up_server.Payment.Momo.{momo_transaction}

printed-is_amount : (n : ℕ) → n < two_64 → is_amount (format_int n) n ≡ true
unfolding is_amount
printed-is_amount n h = rw (parse_int-format_int n h, is_amount) (ground arith)

-- For every package, price, reference and time, the amount that CreateVNPayPayment puts into the URL passes the test that the callback
-- makes with the stored transaction, and so does the amount of a transaction of MoMo, printed, with its own, whatever of them wraps around.
pub created-is_amount :
    (lib : Library) (cfg : VnpayConfig) (pkg : AdPackage) (ref request client_ip : Text)
    (user now : ℕ)
    → (is_amount
          (param (codes "vnp_Amount") (vnpay_params lib cfg pkg ref client_ip now))
          (((vnpay_transaction user pkg ref now).amount * 100) % two_64)
        ≡ true)
      × (is_amount
            (format_int (momo_transaction user pkg ref request now).amount)
            (momo_transaction user pkg ref request now).amount
          ≡ true)
unfolding param text_eq
created-is_amount lib cfg pkg ref request client_ip user now =
    (printed-is_amount _ (omega arith), printed-is_amount _ (omega arith))
