-- ===== src/Stub/Text/Measure.antt =====
-- What the contracts of strlen and strnlen of share/mopsa/stubs/c/libc/string.c promise.
use mopsa_ocaml.Prelude.{ℕ, ◌<◌, ◌≤◌, ◌≡◌, refl, ◌≢◌, inl, inr, arith, ◌==◌}
use native.Mathlib.Decide.{dec_lt}
use mopsa_ocaml.Stub.Memory.{Ptr, Memory, byte, room, Forall}
use mopsa_ocaml.Stub.Frame.{first_or_none}
use mopsa_ocaml.Stub.Text.Length.{strlen, strnlen}

pub strlen_unique :
    (m : Memory) (s : Ptr) (r q : ℕ) → (strlen s).returns m r → (strlen s).returns m q → q ≡ r
unfolding strlen
strlen_unique m s r q (h, e, b) (h', e', b') = elim (dec_lt q r) [
  | yes less ↦ absurd (b q (omega arith) less e')
  | no more ↦ elim (dec_lt r q) [
    | yes less ↦ absurd (b' r (omega arith) less e)
    | no same ↦ omega arith
  ]
]

-- If strlen's requirements hold, its contract allows exactly one result.
pub strlen_lem :
    (m : Memory) (s : Ptr)
    → (strlen s).requires m
    → (r : ℕ) × (strlen s).returns m r × ((q : ℕ) → (strlen s).returns m q → q ≡ r)
unfolding strlen
strlen_lem m s (valid, (w, wl, wh, wz)) = elim (first_or_none (λ i. byte m s i == 0) (room m s)) [
  | inl none ↦ absurd (ground (arith, none w wl wh))
  | inr (r, low, high, (zero, before)) ↦
      let returned : (strlen s).returns m r =
        (high, ground arith, λ j l h. ground (arith, before j l h)) in
      (r, returned, λ q. strlen_unique m s r q returned)
]

-- The string ends at `r` or, if `r` is the bound, goes on.
abbrev pub EndsAt : Memory → Ptr → ℕ → ℕ → Type 0
EndsAt m s maxlen r =
    (r ≤ maxlen) × Forall 0 r (λ i. byte m s i ≢ 0) × (r < maxlen → byte m s r ≡ 0)

-- For a bound that is not zero, each result that strnlen's contract allows is at most the bound, no
-- byte before it is zero, and below the bound the byte at it is zero.
pub strnlen_lem :
    (m : Memory) (s : Ptr) (maxlen r : ℕ)
    → 0 < maxlen
    → (strnlen s maxlen).returns m r
    → EndsAt m s maxlen r
unfolding strnlen
strnlen_lem m s maxlen r some (inr (none, e)) =
    (omega arith, λ i low h. none i low (omega arith), λ h. absurd (omega arith))
strnlen_lem m s maxlen r some (inl (valid, (len, (high, ends, before), e))) =
    let (ptr, (w, wl, wh, wz)) = valid some in
    elim (dec_lt w len) [
      | yes h ↦ absurd (before w wl h wz)
      | no h ↦ rw e (omega arith, before, λ _. ends)
    ]

-- Two ends of one string are the same.
pub EndsAt-unique :
    (m : Memory) (s : Ptr) (maxlen r q : ℕ) → EndsAt m s maxlen r → EndsAt m s maxlen q → r ≡ q
EndsAt-unique m s maxlen r q (a, b, c) (a', b', c') = elim (dec_lt r q) [
  | yes h ↦ absurd (b' r (omega arith) h (c (omega arith)))
  | no h ↦ elim (dec_lt q r) [
    | yes h' ↦ absurd (b q (omega arith) h' (c' (omega arith)))
    | no h' ↦ omega arith
  ]
]

-- For the bound 0, strnlen's contract allows both 0 and the whole length of the string as results.
pub strnlen_zero :
    (m : Memory) (s : Ptr) (len : ℕ)
    → (strlen s).returns m len
    → (strnlen s 0).returns m len × (strnlen s 0).returns m 0
unfolding strnlen strlen
strnlen_zero m s len returned = (
  inl (λ h. absurd (omega arith), (len, returned, refl)),
  inr (λ i low h. absurd (omega arith), refl),
)
