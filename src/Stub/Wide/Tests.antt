-- ===== src/Stub/Wide/Tests.antt =====
-- Instances of the theorems on the stubs of share/mopsa/stubs/c/libc/wchar.c.
use mopsa_ocaml.Prelude.{ℕ, zero, suc, ◌+◌, ◌≡◌, refl, ◌≢◌, true, arith, ◌==◌, if◌then◌else◌}
use mopsa_ocaml.Stub.Memory.{Ptr, at, pos, Memory, byte, Forall}
use mopsa_ocaml.Stub.Overwrite.{overwrite}
use mopsa_ocaml.Stub.Wide.Chars.{wide}
use mopsa_ocaml.Stub.Wide.Length.{wcslen}
use mopsa_ocaml.Stub.Wide.Copying.{wcscpy}
use mopsa_ocaml.Stub.Wide.Terminated.{wcslen_unique}

-- L"a" in block 1, and L"b" in every other.
abbrev wide_sample : Memory
wide_sample = record {
  alive = λ b. true;
  size = λ b. 16;
  cell = λ b o. if o == 0 then (if b == 1 then 97 else 98) else 0;
  errno = pos 0;
}

abbrev a : Ptr
a = at 1 (pos 0)

abbrev b : Ptr
b = at 2 (pos 0)

a_length : (wcslen a).returns wide_sample 1
unfolding wcslen
a_length = (omega arith, refl, one)
  where
    one : Forall 0 1 λ i. wide wide_sample a i ≢ 0
    one zero low high e = omega arith
    one (suc i) low high e = absurd (omega arith)

b_length : (wcslen b).returns wide_sample 1
unfolding wcslen
b_length = (omega arith, refl, one)
  where
    one : Forall 0 1 λ i. wide wide_sample b i ≢ 0
    one zero low high e = omega arith
    one (suc i) low high e = absurd (omega arith)

a_valid : (wcslen a).requires wide_sample
unfolding wcslen
a_valid = ((refl, omega arith), (1, omega arith, omega arith, refl))

-- The memory with the bytes `f` in the first `n` places of block 2.
abbrev copied : Memory
copied = overwrite wide_sample b 8 (byte wide_sample a)

abbrev ba : ℕ → ℕ
ba o = if o == 0 then 98 else if o == 4 then 97 else 0

abbrev joined : Memory
joined = overwrite wide_sample b 12 ba

copied_chars : Forall 0 2 λ i. wide copied b i ≡ wide wide_sample a i
copied_chars zero low high = refl
copied_chars (suc zero) low high = refl
copied_chars (suc (suc i)) low high = absurd (omega arith)

wcscpy_requires : (wcscpy b a).requires wide_sample
unfolding wcscpy
wcscpy_requires = (
  a_valid,
  λ len h.
      let one = wcslen_unique wide_sample a 1 len a_length h in
      (λ _ _ e. absurd (omega arith), λ _. (refl, omega arith)),
)

joined_old : Forall 0 1 λ i. wide joined b i ≡ wide wide_sample b i
joined_old zero low high = refl
joined_old (suc i) low high = absurd (omega arith)

joined_new : Forall 0 2 λ i. wide joined b (1 + i) ≡ wide wide_sample a i
joined_new zero low high = refl
joined_new (suc zero) low high = refl
joined_new (suc (suc i)) low high = absurd (omega arith)
