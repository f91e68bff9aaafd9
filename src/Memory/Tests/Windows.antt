-- ===== src/Memory/Tests/Windows.antt =====
-- The sliding window of middleware/storage/memory/store.go at small instants.
use open_source.Common.{◌+◌, ◌≤◌, ◌≡◌, refl, true, false, List, [], ◌∷◌, arith, length, drop}
use open_source.Common.Int.{pos, neg}
use open_source.Common.GoTime.{Time, add}
use open_source.Memory.Window.{empty_window, find_first_valid, allow}
use open_source.Memory.Window.Made.{new_sliding_window-makes}
use open_source.Memory.Window.Search.{live, Ascending, find_first_valid-live}
use open_source.Memory.Window.Quota.{run_allow, admitted, run_allow-quota}

abbrev instants : List Time
instants = 91 ∷ 92 ∷ 93 ∷ 99 ∷ 103 ∷ []

test_run :
    (run_allow instants (empty_window (pos 10) (pos 2))).1 ≡ true ∷ true ∷ false ∷ false ∷ true ∷ []
unfolding run_allow allow find_first_valid
test_run = refl

instants-Ascending : Ascending 90 instants
instants-Ascending =
    (ground arith, (ground arith, (ground arith, (ground arith, (ground arith, tt)))))

find_first_valid-live_example :
    (drop (find_first_valid 92 instants) instants ≡ live 92 instants)
    × (find_first_valid 92 instants + length (live 92 instants) ≡ length instants)
find_first_valid-live_example = find_first_valid-live 90 92 instants instants-Ascending

run_allow-quota_example :
    length (
      live
        (add 104 (neg (pos 10)))
        (admitted instants (run_allow instants (empty_window (pos 10) (pos 2))).1))
    ≤ 2
run_allow-quota_example =
    run_allow-quota (pos 10) 2 (empty_window (pos 10) (pos 2)) 90 104 instants
      (new_sliding_window-makes (pos 10) (pos 2) (omega arith, omega arith)) (ground arith)
      (ground arith) instants-Ascending (ground arith)
