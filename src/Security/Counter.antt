-- ===== src/Security/Counter.antt =====
-- `incrementCounter` and `clear_vec` of security/Util.cpp. A counter is an `int`: its pattern of 32
-- bits.
use foc_project.Prelude.{ℕ, ◌+◌, ◌<◌, ◌%◌, ◌^◌, ◌≡◌, ◌↔◌, ◌⊎◌, arith, [], ◌==◌, if◌then◌else◌}
use foc_project.Memory.{Buffer}
use foc_project.Words.{minus_one, widen}
use foc_project.Packets.Codes.{counter_max_value}

-- The `int` is widened for the comparison with a `size_t`.
unfoldable pub increment_counter : ℕ → ℕ
increment_counter counter =
    if widen counter == counter_max_value then minus_one else (counter + 1) % 2 ^ 32

-- The bytes are overwritten and the vector is emptied; its memory is not modelled.
unfoldable pub clear_vec : Buffer → Buffer
clear_vec v = []

-- Below the maximum the counter goes up by one.
pub increment_counter-eq-suc : (c : ℕ) → c < counter_max_value → increment_counter c ≡ c + 1
unfolding increment_counter widen
increment_counter-eq-suc c h = ground arith

-- At the maximum, and nowhere else from a counter that has not failed, the session is to end.
pub increment_counter-eq-minus_one :
    (c : ℕ) → c < 2 ^ 31 → (increment_counter c ≡ minus_one) ↔ (c ≡ counter_max_value)
unfolding increment_counter widen
increment_counter-eq-minus_one c h = (λ e. ground arith, λ e. ground arith)

pub increment_counter_cases :
    (c : ℕ)
    → c < 2 ^ 31
    → (increment_counter c ≡ minus_one) ⊎ ((increment_counter c ≡ c + 1) × (c + 1 < 2 ^ 31))
unfolding increment_counter widen
increment_counter_cases c h = ground arith
