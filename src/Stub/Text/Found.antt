-- ===== src/Stub/Text/Found.antt =====
-- The results of strchr and strchrnul of share/mopsa/stubs/c/libc/string.c.
use native.Mathlib.Decide.{dec_lt}
use mopsa_ocaml.Prelude.{
  ℕ, ◌<◌, ◌≡◌, refl, sym, ap, ◌∙◌, ◌≢◌, inl, inr, Bool, true, false, arith, ◌==◌,
}
use mopsa_ocaml.Stub.Memory.{ℤ, pos, negsuc, Ptr, null, Memory, to_char, shift, Forall}
use mopsa_ocaml.Stub.Frame.{first_or_none}
use mopsa_ocaml.Stub.Text.Length.{strlen}
use mopsa_ocaml.Stub.Text.Measure.{strlen_lem, strlen_unique}
use mopsa_ocaml.Stub.Text.Find.{char, strchr, strchrnul}

abbrev same_int : ℤ → ℤ → Bool
same_int (pos a) (pos b) = a == b
same_int (negsuc a) (negsuc b) = a == b
same_int _ _ = false

same_int_lem : (a b : ℤ) → same_int a b ≡ true → a ≡ b
same_int_lem (pos a) (pos b) h = ground arith
same_int_lem (negsuc a) (negsuc b) h = ground arith
same_int_lem (pos a) (negsuc b) h = cc
same_int_lem (negsuc a) (pos b) h = cc

not_same_int : (a b : ℤ) → same_int a b ≡ false → a ≢ b
not_same_int (pos a) (pos b) h e = ground arith
not_same_int (negsuc a) (negsuc b) h e = ground arith
not_same_int (pos a) (negsuc b) h e = cc
not_same_int (negsuc a) (pos b) h e = cc

-- The first of two occurrences is one.
first_unique :
    (m : Memory) (s : Ptr) (c : ℤ) (i j : ℕ)
    → char m s i ≡ c
    → Forall 0 i (λ k. char m s k ≢ c)
    → char m s j ≡ c
    → Forall 0 j (λ k. char m s k ≢ c)
    → i ≡ j
first_unique m s c i j hi bi hj bj = elim (dec_lt i j) [
  | yes h ↦ absurd (bj i (omega arith) h hi)
  | no h ↦ elim (dec_lt j i) [ yes h' ↦ absurd (bi j (omega arith) h' hj) | no h' ↦ omega arith ]
]

-- Every call has a result.
strchr_total :
    (m : Memory) (s : Ptr) (c : ℤ) → (strchr s c).requires m → (r : Ptr) × (strchr s c).returns m r
unfolding strchr
strchr_total m s c valid =
    let (len, ends, unique) = strlen_lem m s valid in
    elim (first_or_none (λ i. same_int (char m s i) c) len) [
      | inl none ↦ (
        null,
        (len, ends, inr (λ i low high. not_same_int (char m s i) c (none i low high), refl)),
      )
      | inr (i, low, high, (hit, before)) ↦ (
        shift s i,
        (
          len,
          ends,
          inl (
            i,
            low,
            high,
            (same_int_lem _ _ hit, λ j l h. not_same_int (char m s j) c (before j l h), refl),
          ),
        ),
      )
    ]

strchr_unique :
    (m : Memory) (s : Ptr) (c : ℤ) (r q : Ptr)
    → (strchr s c).returns m r
    → (strchr s c).returns m q
    → r ≡ q
unfolding strchr
strchr_unique m s c r q (k, ret, inr (none, e)) (k', ret', inr (none', e')) = e ∙ sym e'
strchr_unique m s c r q (k, ret, inl (i, low, high, (hit, before, e)))
      (k', ret', inl (j, l, h, (hit', before', e'))) =
    e ∙ ap (shift s) (first_unique m s c i j hit before hit' before') ∙ sym e'
strchr_unique m s c r q (k, ret, inl (i, low, high, (hit, before, e))) (k', ret', inr (none, e')) =
    absurd (none i low (omega (arith, strlen_unique m s k k' ret ret')) hit)
strchr_unique m s c r q (k, ret, inr (none, e)) (k', ret', inl (i, low, high, (hit, before, e'))) =
    absurd (none i low (omega (arith, strlen_unique m s k k' ret ret')) hit)

-- If strchr's requirements hold, its contract allows exactly one result.
strchr_lem :
    (m : Memory) (s : Ptr) (c : ℤ)
    → (strchr s c).requires m
    → (r : Ptr) × (strchr s c).returns m r × ((q : Ptr) → (strchr s c).returns m q → q ≡ r)
strchr_lem m s c valid =
    let (r, returned) = strchr_total m s c valid in
    (r, returned, λ q other. strchr_unique m s c q r other returned)

char_zero : (b : ℕ) → to_char b ≡ pos 0 → b ≡ 0
char_zero b h = ground arith

-- No character before the end is the terminator.
char-ne-zero :
    (m : Memory) (s : Ptr) (len i : ℕ) → (strlen s).returns m len → i < len → char m s i ≢ pos 0
unfolding strlen
char-ne-zero m s len i (high, ends, before) h e = before i (omega arith) h (char_zero _ e)

strchr-zero : (m : Memory) (s r : Ptr) → (strchr s (pos 0)).returns m r → r ≡ null
unfolding strchr
strchr-zero m s r (k, ret, inl (i, low, high, (hit, before, e))) =
    absurd (char-ne-zero m s k i ret high hit)
strchr-zero m s r (k, ret, inr (none, e)) = e

strchrnul-zero :
    (m : Memory) (s q : Ptr) (len : ℕ)
    → (strchrnul s (pos 0)).returns m q
    → (strlen s).returns m len
    → q ≡ shift s len
unfolding strchrnul
strchrnul-zero m s q len (k, ret, inl (i, low, high, (hit, before, e))) ends =
    absurd (char-ne-zero m s k i ret high hit)
strchrnul-zero m s q len (k, ret, inr (none, e)) ends =
    e ∙ ap (shift s) (strlen_unique m s len k ends ret)

-- Sought for the terminator 0, strchr's contract allows the result null only, and strchrnul's
-- contract only the pointer to the end of the string.
strchr_terminator :
    (m : Memory) (s r q : Ptr) (len : ℕ)
    → (strchr s (pos 0)).returns m r
    → (strchrnul s (pos 0)).returns m q
    → (strlen s).returns m len
    → (r ≡ null) × (q ≡ shift s len)
strchr_terminator m s r q len found found' ends =
    (strchr-zero m s r found, strchrnul-zero m s q len found' ends)
