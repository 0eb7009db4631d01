-- ===== src/Stub/Numbers/Tests.antt =====
-- A number that is read from one byte on, and divisions.
use mopsa_ocaml.Prelude.{ℕ, suc, ℤ, pos, negsuc, ◌≡◌, ◌≤◌, ◌↔◌, inl, inr, refl, some, arith}
use mopsa_ocaml.Prelude.Signed.{◌+ℤ◌, ◌*ℤ◌}
use mopsa_ocaml.Stub.Memory.{at}
use mopsa_ocaml.Stub.Sample.{sample, ab, ab_nonzero}
use mopsa_ocaml.Stub.Text.Length.{strlen}
use mopsa_ocaml.Stub.Numbers.{valid_end, strtol}
use mopsa_ocaml.Stub.Numbers.Ends.{strtol-strlen}
use mopsa_ocaml.Stub.Numbers.Divide.{Division, int_max, abs, div}
use mopsa_ocaml.Stub.Numbers.Quotients.{FitsInt, div-FitsInt}

ab_ends : (strlen ab).returns sample 2
unfolding strlen
ab_ends = (omega arith, refl, ab_nonzero)

ab_read : (strtol ab (pos 16)).requires sample valid_end
unfolding strtol strlen
ab_read = (
  inr (16, omega arith, omega arith, refl),
  (
    ground arith,
    (λ _. ((refl, omega arith), (2, omega arith, omega arith, refl))),
    λ h. absurd (ground arith),
  ),
)

ab_converted : (strtol ab (pos 16)).ensures sample valid_end (pos 171) (some (at 1 (pos 2))) sample
unfolding strtol
ab_converted = (
  record { same_alive = λ b. refl; same_size = λ b. refl; same_cell = λ b o. refl },
  inl (ground arith, (2, ab_ends, (2, omega arith, omega arith, refl))),
)

strtol-strlen_example :
    (strtol (at 1 (pos 2)) (pos 10)).requires sample valid_end
    × ((k : ℕ) × (k ≤ 2) × (strlen (at 1 (pos 2))).returns sample k)
strtol-strlen_example =
    strtol-strlen ab (pos 16) (pos 10) sample (pos 171) (at 1 (pos 2)) sample 2 ab_read ab_converted
      ab_ends (inr (10, omega arith, omega arith, refl))

-- -7 divided by 2.
divided : (div (negsuc 6) (pos 2)).ensures (record { quot = negsuc 2; rem = negsuc 0 })
unfolding div
divided = (refl, refl)

div_allowed : (numer : ℤ) → (div numer (pos 2)).requires
unfolding div
div_allowed numer = (ground arith, tt)

abs_pos : (n : ℕ) → (abs (pos n)).ensures (pos n)
unfolding abs
abs_pos n = ((λ _. refl), λ h. absurd (ground arith))

abs_negsuc : (n : ℕ) → (abs (negsuc n)).ensures (pos (suc n))
unfolding abs
abs_negsuc n = ((λ h. absurd (ground arith)), λ _. refl)

-- INT_MIN divided by -1 wraps around.
abbrev wrapped_division : Division
wrapped_division = record { quot = negsuc int_max; rem = pos 0 }

overflowing : (div (negsuc int_max) (negsuc 0)).ensures wrapped_division
unfolding div
overflowing = (refl, refl)

overflow_allowed : (div (negsuc int_max) (negsuc 0)).requires
unfolding div
overflow_allowed = (ground arith, omega arith)

div-FitsInt_example :
    FitsInt (negsuc int_max)
    × FitsInt (pos 0)
    × ((negsuc int_max ≡ (negsuc 0 *ℤ negsuc int_max) +ℤ pos 0)
        ↔ (¬ ((negsuc int_max ≡ negsuc int_max) × (negsuc 0 ≡ negsuc 0))))
div-FitsInt_example =
    div-FitsInt (negsuc int_max) (negsuc 0) wrapped_division (omega arith) overflow_allowed
      overflowing
