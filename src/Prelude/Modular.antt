-- ===== src/Prelude/Modular.antt =====
-- Positions on a ring of `n` slots: the offsets from a start below `n` are told apart.
use native.Mathlib.Nat.{mod-eq_of_lt, mod-eq-sub-mod, mod-add-mod, add-zero}
use Prim.Native.Nat.{ℕ, suc, ◌+◌, ◌-◌, ◌%◌, ◌<◌, ◌≤◌}
use mathlib.Core.Path.{◌≡◌, ap, ◌∙◌}
use mathlib.Core.Logic.{◌≢◌, ◌⊎◌, inl, inr}
use native.Mathlib.Decide.{dec_lt}
use native.Mathlib.Omega.{arith}

-- Within one turn, `%` subtracts `n` at most once.
add-mod_cases :
    (n h k : ℕ)
    → h < n
    → k < n
    → ((h + k < n) × ((h + k) % n ≡ h + k)) ⊎ ((n ≤ h + k) × ((h + k) % n ≡ h + k - n))
add-mod_cases n h k hh hk = elim (dec_lt (h + k) n) [
  | yes p ↦ inl (p, mod-eq_of_lt p)
  | no p ↦
      inr
        (omega arith, mod-eq-sub-mod {n = h + k} {m = n} (omega arith) ∙ mod-eq_of_lt (omega arith))
]

pub add-mod-ne : (n h i j : ℕ) → h < n → i < n → j < n → i ≢ j → (h + i) % n ≢ (h + j) % n
add-mod-ne n h i j hh hi hj ne = omega (arith, add-mod_cases n h i hh hi, add-mod_cases n h j hh hj)

pub add-mod-step : (n h k : ℕ) → ((h + 1) % n + k) % n ≡ (h + suc k) % n
add-mod-step n h k = rw mod-add-mod (ap (λ t. t % n) (omega arith))

pub add-mod-zero : (n h : ℕ) → h < n → (h + 0) % n ≡ h
add-mod-zero n h p = rw add-zero (mod-eq_of_lt p)

-- A whole turn comes back.
pub add-mod_self : (n h : ℕ) → h < n → (h + n) % n ≡ h
add-mod_self n h p =
    mod-eq-sub-mod {n = h + n} {m = n} (omega arith)
    ∙ ap (λ t. t % n) (omega arith)
    ∙ mod-eq_of_lt p
