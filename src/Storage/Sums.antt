-- ===== src/Storage/Sums.antt =====
-- Sums of integers that the theorems about the price of writes need.
use veda_bvm.Common.{ℕ, suc, ◌+◌, ◌-◌, ◌*◌, ◌≤◌, ◌≡◌, arith}
use veda_bvm.Common.Int.{ℤ, pos, ◌+ℤ◌, int_laws, parts_of_eq}

module _ (fb fa pb pa : ℤ) (sload : ℕ) where
  pub spent :
      (cost : ℕ) (gas_refund : ℤ)
      → pos cost +ℤ pb ≡ gas_refund +ℤ pa +ℤ pos sload
      → fa +ℤ pos cost ≡ fb +ℤ gas_refund
      → fa +ℤ pa +ℤ pos sload ≡ fb +ℤ pb
  spent cost gas_refund h k = omega (
    int_laws,
    parts_of_eq (pos cost +ℤ pb) (gas_refund +ℤ pa +ℤ pos sload) h,
    parts_of_eq (fa +ℤ pos cost) (fb +ℤ gas_refund) k,
  )

  pub with_surcharge :
      (surcharge : ℤ)
      → fa +ℤ pa +ℤ pos sload ≡ fb +ℤ pb
      → fa +ℤ (pa +ℤ surcharge) +ℤ pos sload ≡ fb +ℤ (pb +ℤ surcharge)
  with_surcharge surcharge h = omega (int_laws, parts_of_eq (fa +ℤ pa +ℤ pos sload) (fb +ℤ pb) h)

pub less_surcharge :
    (fb pb pa gas_refunded : ℤ) (sload n k : ℕ)
    → k ≤ n
    → pos n +ℤ gas_refunded +ℤ pa +ℤ pos sload ≡ fb +ℤ pb
    → pos (n - k) +ℤ gas_refunded +ℤ (pa +ℤ pos k) +ℤ pos sload ≡ fb +ℤ (pb +ℤ pos 0)
less_surcharge fb pb pa gas_refunded sload n k enough h =
    omega (int_laws, parts_of_eq (pos n +ℤ gas_refunded +ℤ pa +ℤ pos sload) (fb +ℤ pb) h)

pub nothing : (a : ℤ) (k : ℕ) → a +ℤ pos (0 * k) +ℤ pos 0 ≡ a
nothing a k = omega int_laws

pub one_more :
    (b m a spent : ℤ) (n k : ℕ)
    → b +ℤ pos k ≡ m
    → m +ℤ pos (n * k) +ℤ spent ≡ a
    → b +ℤ pos (suc n * k) +ℤ spent ≡ a
one_more b m a spent n k h past =
    let product : suc n * k ≡ n * k + k = grind arith in
    rw product (
      omega
        (int_laws, parts_of_eq (b +ℤ pos k) m h, parts_of_eq (m +ℤ pos (n * k) +ℤ spent) a past))

pub moved :
    (fb fm p a old more : ℤ) (k : ℕ)
    → fb +ℤ more ≡ fm
    → fm +ℤ p +ℤ pos k +ℤ old ≡ a
    → fb +ℤ p +ℤ pos k +ℤ (old +ℤ more) ≡ a
moved fb fm p a old more k h past =
    omega (int_laws, parts_of_eq (fb +ℤ more) fm h, parts_of_eq (fm +ℤ p +ℤ pos k +ℤ old) a past)

-- A price that is paid and counted, and one that is paid for the surcharge of a cold slot.
module _ (g p : ℤ) (n k : ℕ) where
  pub paid_price : k ≤ n → pos (n - k) +ℤ g +ℤ p +ℤ pos k ≡ pos n +ℤ g +ℤ p
  paid_price enough = omega int_laws

  pub paid_surcharge :
      k ≤ n → pos (n - k) +ℤ g +ℤ (p +ℤ pos k) +ℤ pos 0 ≡ pos n +ℤ g +ℤ (p +ℤ pos 0)
  paid_surcharge enough = omega int_laws

pub one_look :
    (b m a spent : ℤ) (k c : ℕ)
    → b +ℤ pos c ≡ m
    → m +ℤ pos k +ℤ spent ≡ a
    → b +ℤ pos k +ℤ (spent +ℤ pos c) ≡ a
one_look b m a spent k c h past =
    omega (int_laws, parts_of_eq (b +ℤ pos c) m h, parts_of_eq (m +ℤ pos k +ℤ spent) a past)
