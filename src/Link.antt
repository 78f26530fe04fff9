-- ===== src/Link.antt =====
-- core/topo.py: `NetemAt`, the bandwidth-delay product and `LinkCharacteristics`.
pub mod Schedule
pub mod Commands
use minitopo.Base.{
  ℕ, zero, suc, ◌+◌, ◌*◌, String, Bool, true, false, List, [], ◌∷◌, ◌++◌, Option, none, some,
}
use minitopo.Base.{if◌then◌else◌}
use minitopo.Base.Int.{ℤ, pos, negsuc, positive}
use minitopo.Errors.{Result, ok, err, ◌>>=◌}
use minitopo.Floats.{Floats}
use minitopo.Text.Number.{show}

pub record NetemAt (F : Type 0) : Type 0 where
  pub at : F
  pub cmd : String
  pub delta : F

pub record LinkCharacteristics (F : Type 0) : Type 0 where
  pub id : ℤ
  pub link_type : String
  pub delay : F
  pub queue_size : ℤ
  pub bandwidth : F
  pub loss : F
  pub queuing_delay : String
  pub netem_at : List (NetemAt F)
  pub backup : ℤ

-- A product with a positive number.
abbrev pub times : ℤ → ℕ → ℤ
times (pos a) n = pos (a * n)
times (negsuc a) zero = pos 0
times (negsuc a) (suc n) = negsuc (a * suc n + n)

-- `max(n, 1)`
abbrev at_least_one : ℤ → ℤ
at_least_one n = if positive n then n else pos 1

abbrev pub last {ℓ} : {A : Type ℓ} → List A → Option A
last [] = none
last (a ∷ []) = some a
last (a ∷ b ∷ l) = last (b ∷ l)

module _ (fl : Floats) where
  open fl use {F, of_int, add, sub, mul, div, ceil, trunc, lt, read}

  -- With `delay` in ms and `bandwidth` in Mbps.
  unfoldable pub get_bandwidth_delay_product_divided_by_mtu : F → F → Result ℤ
  get_bandwidth_delay_product_divided_by_mtu delay bandwidth = do
    let rtt = mul (of_int (pos 2)) delay
    seconds ← div rtt (of_int (pos 1000))
    let product = mul (mul bandwidth (of_int (pos 125000))) seconds
    packets ← div (mul product (of_int (pos 1))) (of_int (pos 1500))
    ceil packets

  unfoldable pub extract_queuing_delay : ℤ → F → Result ℤ
  extract_queuing_delay queue_size bandwidth = do
    let bits = mul (mul (of_int (times queue_size 1500)) (of_int (pos 8))) (of_int (pos 1000))
    let rate = mul (mul bandwidth (of_int (pos 1024))) (of_int (pos 1024))
    queuing_delay ← div bits rate
    whole ← trunc queuing_delay
    ok (at_least_one whole)

  -- `LinkCharacteristics(...)`
  unfoldable pub init :
      (id : ℤ) (link_type : String) (delay : F) (queue_size : ℤ) (bandwidth loss : F) (backup : ℤ)
      → Result (LinkCharacteristics F)
  init id link_type delay queue_size bandwidth loss backup = do
    queuing_delay ← extract_queuing_delay queue_size bandwidth
    ok (record {
      id = id;
      link_type = link_type;
      delay = delay;
      queue_size = queue_size;
      bandwidth = bandwidth;
      loss = loss;
      queuing_delay = show queuing_delay;
      netem_at = [];
      backup = backup;
    })

  pub buffer_size : LinkCharacteristics F → Result F
  unfolding get_bandwidth_delay_product_divided_by_mtu
  buffer_size l = do
    product ← get_bandwidth_delay_product_divided_by_mtu l.delay l.bandwidth
    queuing_delay ← read l.queuing_delay
    let bits = mul (mul l.bandwidth (of_int (pos 1000))) queuing_delay
    bytes ← div bits (of_int (pos 8))
    ok (add (mul (of_int (pos 1500)) (of_int product)) bytes)

  -- The schedule after one more entry: an entry that is not later than the last is left out.
  unfoldable pub schedule : List (NetemAt F) → NetemAt F → List (NetemAt F)
  schedule netem_at n = elim (last netem_at) [
    | none ↦ netem_at ++ record n { delta = n.at } ∷ []
    | some previous ↦
        if lt previous.at n.at
        then netem_at ++ record n { delta = sub n.at previous.at } ∷ []
        else netem_at
  ]

  unfoldable pub add_netem_at : LinkCharacteristics F → NetemAt F → LinkCharacteristics F
  unfolding schedule
  add_netem_at l n = record l { netem_at = schedule l.netem_at n }
