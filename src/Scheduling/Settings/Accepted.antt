-- ===== src/Scheduling/Settings/Accepted.antt =====
-- The settings that are accepted.
use pwshpy.Base.{
  ℕ, ◌*◌, ◌/◌, ◌%◌, ◌<◌, ◌≡◌, ◌↔◌, refl, ap, sym, true, false, Option, none, some, Bool-cases, inl,
  inr, ◌⊎◌, ok, arith, ◌==◌, ltb, ==_iff, ltb→ge, ge→ltb,
}
use pwshpy.Base.Int.{ℤ, pos, negsuc}
use pwshpy.Scheduling.Settings.{second, max_execution_time_limit, whole_non_negative_seconds}

-- No limit, or whole seconds whose number a signed 32-bit integer holds.
abbrev pub IsWholeLimit : Option ℤ → Type 0
IsWholeLimit limit =
    (limit ≡ none) ⊎ ((n : ℕ) × (n < 2147483648) × (limit ≡ some (pos (n * second))))

whole_multiple : (n : ℕ) → n % 1000000 ≡ 0 → n ≡ n / 1000000 * 1000000
whole_multiple n h = omega arith

multiple-mod : (n m : ℕ) → n ≡ m * 1000000 → n % 1000000 ≡ 0
multiple-mod n m h = omega arith

-- A time limit is accepted exactly if it is none, or a whole number of seconds below 2147483648,
-- and it is kept as it is.
pub whole_non_negative_seconds_iff :
    (limit kept : Option ℤ)
    → (whole_non_negative_seconds limit ≡ ok kept) ↔ ((kept ≡ limit) × IsWholeLimit limit)
unfolding whole_non_negative_seconds
whole_non_negative_seconds_iff none kept = (λ h. (cc, inl refl), λ (e, k). ap ok (sym e))
whole_non_negative_seconds_iff (some (negsuc n)) kept =
    (λ h. absurd (cc), λ (e, k). absurd (cc (refuse k)))
  where
    refuse : IsWholeLimit (some (negsuc n)) → true ≡ false
    refuse (inl e) = cc
    refuse (inr (m, b, e)) = cc
whole_non_negative_seconds_iff (some (pos n)) kept = (accepted, kept_whole)
  where
    accepted :
        whole_non_negative_seconds (some (pos n)) ≡ ok kept
        → (kept ≡ some (pos n)) × IsWholeLimit (some (pos n))
    accepted h = elim (Bool-cases (n % second == 0)) [
      | inr part ↦ absurd (cc (rw part at h))
      | inl whole ↦ elim (Bool-cases (ltb max_execution_time_limit n)) [
        | inl long ↦ absurd (cc (rw (whole, long) at h))
        | inr short ↦
            let e = whole_multiple n ((==_iff (n % second) 0).0 whole) in
            (
              cc (rw (whole, short) at h),
              inr (
                n / second,
                omega (arith, ltb→ge max_execution_time_limit n short),
                ap (λ k. some (pos k)) e,
              ),
            )
      ]
    ]

    kept_whole :
        (kept ≡ some (pos n)) × IsWholeLimit (some (pos n))
        → whole_non_negative_seconds (some (pos n)) ≡ ok kept
    kept_whole (e, inl k) = absurd (cc)
    kept_whole (e, inr (m, b, k)) =
        let same : n ≡ m * second = cc in
        let whole : (n % second == 0) ≡ true = (==_iff (n % second) 0).1 (multiple-mod n m same) in
        let short : ltb max_execution_time_limit n ≡ false =
          ge→ltb max_execution_time_limit n (omega (arith, same)) in
        rw (whole, short) (ap ok (sym e))
