-- ===== src/Stub/Text/Facts.antt =====
-- The strings of the sample memory, and the memories after copies of them, for the tests of the
-- str* stubs of share/mopsa/stubs/c/libc/string.c.
use mopsa_ocaml.Prelude.{
  ℕ, ◌+◌, ◌-◌, zero, suc, ◌≡◌, refl, ◌≢◌, ◌<◌, inr, true, arith, ap, ◌∙◌, ◌==◌, if◌then◌else◌,
}
use mopsa_ocaml.Stub.Memory.{pos, Memory, byte, shift, Forall, ValidBytes}
use mopsa_ocaml.Stub.Contract.{NewMemory, Assigns}
use mopsa_ocaml.Stub.Overwrite.{overwrite, overwrite-Assigns, byte-overwrite}
use mopsa_ocaml.Stub.Sample.{sample, ab, x, ab_nonzero, x_nonzero}
use mopsa_ocaml.Stub.Text.Length.{strlen, strnlen}
use mopsa_ocaml.Stub.Text.Measure.{strlen_unique}
use mopsa_ocaml.Stub.Text.Find.{char}

pub ab_ends : (strlen ab).returns sample 2
unfolding strlen
ab_ends = (omega arith, refl, ab_nonzero)

pub x_ends : (strlen x).returns sample 1
unfolding strlen
x_ends = (omega arith, refl, x_nonzero)

pub ab_valid : (strlen ab).requires sample
unfolding strlen
ab_valid = ((refl, omega arith), (2, omega arith, omega arith, refl))

pub x_valid : (strlen x).requires sample
unfolding strlen
x_valid = ((refl, omega arith), (1, omega arith, omega arith, refl))

pub ab_length : (len : ℕ) → (strlen ab).returns sample len → len ≡ 2
ab_length len h = strlen_unique sample ab 2 len ab_ends h

pub x_length : (len : ℕ) → (strlen x).returns sample len → len ≡ 1
x_length len h = strlen_unique sample x 1 len x_ends h

pub ab_cut : (strnlen ab 2).returns sample 2
unfolding strnlen
ab_cut = inr (ab_nonzero, refl)

-- The memory after the first `n` bytes of "ab" are copied to `x`.
abbrev pub after : ℕ → ℕ → Memory
after n to = overwrite sample (shift x to) n (byte sample ab)

-- The memory with "xab" at `x`.
abbrev pub joined : ℕ → ℕ
joined i = if i == 0 then 120 else byte sample ab (i - 1)

abbrev pub after_cat : Memory
after_cat = overwrite sample x 4 joined

pub x_room : ValidBytes sample x 4
x_room _ = (refl, omega arith)

pub cat_old : Forall 0 1 λ i. byte after_cat x i ≡ byte sample x i
cat_old zero low high = refl
cat_old (suc i) low high = absurd (omega arith)

pub cat_new : (i : ℕ) → i < 3 → byte after_cat x (1 + i) ≡ byte sample ab i
cat_new i h = byte-overwrite sample x 4 joined (1 + i) x_room (omega arith) ∙ shifted
  where
    shifted : joined (1 + i) ≡ byte sample ab i
    shifted = let back : 1 + i - 1 ≡ i = omega arith in ground (arith, ap (byte sample ab) back)

-- A copy of "ab" in block 3.
abbrev pub duplicated : Memory
duplicated = record {
  alive = λ b. if b == 3 then true else sample.alive b;
  size = λ b. if b == 3 then 3 else 8;
  cell = λ b o. if b == 3 then byte sample ab o else sample.cell b o;
  errno = pos 0;
}

pub allocated : NewMemory 3 sample duplicated
allocated = record {
  fresh = refl;
  now_alive = refl;
  same_alive = λ c h. ground (arith, h);
  same_size = λ c h. ground (arith, h);
  same_cell = λ c o h. ground (arith, h);
  same_errno = refl;
}

pub ab_no_zero : Forall 0 2 λ i. char sample ab i ≢ pos 0
ab_no_zero zero low high e = ground arith
ab_no_zero (suc zero) low high e = ground arith
ab_no_zero (suc (suc i)) low high e = absurd (omega arith)

pub strcpy_written : Assigns x 3 sample (after 3 0)
strcpy_written = overwrite-Assigns sample x 3 (byte sample ab)

pub strcpy_bytes : Forall 0 3 λ i. byte (after 3 0) x i ≡ byte sample ab i
strcpy_bytes i low high =
    byte-overwrite sample x 3 (byte sample ab) i (λ _. (refl, omega arith)) high
