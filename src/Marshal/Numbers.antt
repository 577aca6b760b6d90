-- ===== src/Marshal/Numbers.antt =====
-- Numbers that native calls report.
use pwshpy.Base.{
  min, ℕ, suc, ◌+◌, ◌*◌, ◌/◌, ◌≤◌, ◌<◌, ◌≡◌, ◌≢◌, ◌↔◌, refl, false, some, arith, Bool-cases, inl,
  inr,
}
use pwshpy.Base.Int.{ℤ, pos, negsuc}
use pwshpy.Enums.IntegrityLevel.{IntegrityLevel, untrusted, low, medium, high, system, protected}
use pwshpy.Marshal.{first_floor}
use pwshpy.Marshal.Tasks.{
  task_has_not_run, task_running, is_no_result, unsigned_32, to_task_result, to_integrity_level,
}

-- `code` is an unsigned number of 32 bits, and differs from the value by a multiple of 2 ^ 32.
abbrev pub IsUnsigned : ℤ → ℕ → Type 0
IsUnsigned (pos n) code = (code < 4294967296) × ((k : ℕ) × (n ≡ code + k * 4294967296))
IsUnsigned (negsuc n) code = (code < 4294967296) × ((k : ℕ) × (code + suc n ≡ k * 4294967296))

unsigned_32-IsUnsigned : (value : ℤ) → IsUnsigned value (unsigned_32 value)
unfolding unsigned_32
unsigned_32-IsUnsigned (pos n) = (omega arith, (n / 4294967296, omega arith))
unsigned_32-IsUnsigned (negsuc n) = (omega arith, (n / 4294967296 + 1, omega arith))

IsUnsigned-unique : (value : ℤ) (code : ℕ) → IsUnsigned value code → unsigned_32 value ≡ code
unfolding unsigned_32
IsUnsigned-unique (pos n) code (h, (k, e)) = omega arith
IsUnsigned-unique (negsuc n) code (h, (k, e)) = omega arith

no_result_false :
    (code : ℕ) → is_no_result code ≡ false → (code ≢ task_has_not_run) × (code ≢ task_running)
no_result_false code h = (ground arith, ground arith)

-- A task's result is reported exactly if its 32 bits are neither of the two codes that stand for no
-- result; it is then the unsigned number with those bits, whatever the sign it came with.
pub to_task_result_iff :
    (value : ℤ) (code : ℕ)
    → (to_task_result value ≡ some code)
      ↔ (IsUnsigned value code × (code ≢ task_has_not_run) × (code ≢ task_running))
unfolding to_task_result
to_task_result_iff value code = (reported, is_reported)
  where
    reported :
        to_task_result value ≡ some code
        → IsUnsigned value code × (code ≢ task_has_not_run) × (code ≢ task_running)
    reported h = elim (Bool-cases (is_no_result (unsigned_32 value))) [
      | inl no_result ↦ absurd (cc (rw no_result at h))
      | inr result ↦
          let e : unsigned_32 value ≡ code = cc (rw result at h) in
          let (a, b) = no_result_false (unsigned_32 value) result in
          rw (← e) (unsigned_32-IsUnsigned value, a, b)
    ]

    is_reported :
        IsUnsigned value code × (code ≢ task_has_not_run) × (code ≢ task_running)
        → to_task_result value ≡ some code
    is_reported (u, a, b) =
        let e : unsigned_32 value ≡ code = IsUnsigned-unique value code u in
        let result : is_no_result code ≡ false = ground arith in rw (e, result) refl

-- The levels by rank.
abbrev pub rank : IntegrityLevel → ℕ
rank untrusted = 0
rank low = 1
rank medium = 2
rank high = 3
rank system = 4
rank protected = 5

rank-eq_min : (rid : ℕ) → rank (to_integrity_level rid) ≡ min 5 (rid / 4096)
unfolding to_integrity_level first_floor
rank-eq_min rid = ground arith

-- A larger identifier never means a lower integrity level.
pub rank-to_integrity_level :
    (rid larger : ℕ)
    → rid ≤ larger
    → rank (to_integrity_level rid) ≤ rank (to_integrity_level larger)
rank-to_integrity_level rid larger h = omega (arith, rank-eq_min rid, rank-eq_min larger)
