-- ===== src/Stub/Bytes/Compare.antt =====
-- memcmp of share/mopsa/stubs/c/libc/string.c: a result for every pair of valid blocks, with the sign
-- that the first difference gives.
use mopsa_ocaml.Prelude.{
  ℕ, ◌<◌, ◌≡◌, ◌≢◌, ◌↔◌, refl, inl, inr, not, arith, ltb, ◌==◌, if◌then◌else◌,
}
use mopsa_ocaml.Stub.Memory.{ℤ, pos, negsuc, Ptr, Memory, byte, Forall}
use mopsa_ocaml.Stub.Frame.{first_or_none}
use mopsa_ocaml.Stub.Bytes.Defs.{memcmp, Positive, Negative}

-- -1, 0 or 1, as a comes before b, is b or comes after b.
order_of : ℕ → ℕ → ℤ
order_of a b = if ltb a b then negsuc 0 else if ltb b a then pos 1 else pos 0

order_of-sign : (a b : ℕ) → (b < a → Positive (order_of a b)) × (a < b → Negative (order_of a b))
unfolding order_of
order_of-sign a b = grind arith

-- For any two blocks and any length there is a result that memcmp's contract allows.
memcmp_total : (m : Memory) (s1 s2 : Ptr) (n : ℕ) → (r : ℤ) × (memcmp s1 s2 n).returns m r
unfolding memcmp
memcmp_total m s1 s2 n = elim (first_or_none (λ i. not (byte m s1 i == byte m s2 i)) n) [
  | inl same ↦ (pos 0, inl (λ i low high. ground (arith, same i low high), refl))
  | inr (i, low, high, (differ, before)) ↦
      let here : byte m s1 i ≢ byte m s2 i = ground arith in
      (
        order_of (byte m s1 i) (byte m s2 i),
        inr (
          (i, low, high, here),
          (
            i,
            low,
            high,
            (
              here,
              (λ j l h. ground (arith, before j l h)),
              (order_of-sign (byte m s1 i) (byte m s2 i)).0,
              (order_of-sign (byte m s1 i) (byte m s2 i)).1,
            ),
          ),
        ),
      )
]

-- A result that memcmp's contract allows is zero exactly when the two blocks agree on every byte.
memcmp-eq-zero :
    (m : Memory) (s1 s2 : Ptr) (n : ℕ) (r : ℤ)
    → (memcmp s1 s2 n).returns m r
    → (r ≡ pos 0) ↔ Forall 0 n (λ i. byte m s1 i ≡ byte m s2 i)
unfolding memcmp
memcmp-eq-zero m s1 s2 n r (inl (same, e)) = (λ _. same, λ _. e)
memcmp-eq-zero m s1 s2 n (pos k)
      (inr ((w, wl, wh, wd), (i, low, high, (differ, before, up, down)))) =
    (λ e. absurd (grind arith), λ same. absurd (differ (same i low high)))
memcmp-eq-zero m s1 s2 n (negsuc k)
      (inr ((w, wl, wh, wd), (i, low, high, (differ, before, up, down)))) =
    (λ e. cc, λ same. absurd (differ (same i low high)))
