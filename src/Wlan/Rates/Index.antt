-- ===== src/Wlan/Rates/Index.antt =====
-- The legacy rate table of core/wlan_util.c, read in both directions.
use libuwifi.Base.{ℕ, ◌≤◌, ◌<◌, ◌≡◌, ◌↔◌, arith}
use libuwifi.Wlan.Rates.{rate_to_index, rate_to_rate}

-- For the indices 1 to 12 the two look-ups are inverse to one another: a rate has an index exactly when
-- the index has that rate.
pub rate_index_iff :
    (rate idx : ℕ) → 1 ≤ idx → idx ≤ 12 → (rate_to_index rate ≡ idx) ↔ (rate_to_rate idx ≡ rate)
unfolding rate_to_index rate_to_rate
rate_index_iff rate idx h k = ground arith

-- A larger index within the table stands for a larger rate.
pub rate_to_rate_mono : (i j : ℕ) → i < j → j ≤ 12 → rate_to_rate i < rate_to_rate j
unfolding rate_to_rate
rate_to_rate_mono i j h k = ground arith
