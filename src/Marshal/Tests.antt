-- ===== src/Marshal/Tests.antt =====
-- Numbers at the edges of the tables.
use pwshpy.Base.{◌≡◌, ◌≢◌, ◌↔◌, refl, none, some}
use pwshpy.Base.Int.{pos, negsuc}
use pwshpy.Marshal.Tasks.{to_task_result, unsigned_32, task_has_not_run, task_running}
use pwshpy.Marshal.Numbers.{IsUnsigned, to_task_result_iff}

-- The HRESULT 0x80070002, as the signed number that COM reports.
file_not_found : to_task_result (negsuc 2147024893) ≡ some 0x80070002
unfolding to_task_result unsigned_32
file_not_found = refl

has_not_run : to_task_result (pos 0x41303) ≡ none
unfolding to_task_result unsigned_32
has_not_run = refl

to_task_result_iff_example : (to_task_result (negsuc 2147024893) ≡ some 0x80070002) ↔ (
    IsUnsigned (negsuc 2147024893) 0x80070002
    × (0x80070002 ≢ task_has_not_run)
    × (0x80070002 ≢ task_running))
to_task_result_iff_example = to_task_result_iff (negsuc 2147024893) 0x80070002
