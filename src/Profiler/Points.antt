-- ===== src/Profiler/Points.antt =====
-- The input lengths that the profiler is given as a text (`run_profiling`).
use rbg_planner.Prelude.{ℤ, List, [], ◌∷◌, ◌≡◌, refl, ap, ◌∙◌, some}
use rbg_planner.Python.{ok}
use rbg_planner.Python.Text.{codes, int_text, scan_int, parse_int}
use rbg_planner.Python.Text.RoundTrip.{parse_int-int_text}
use rbg_planner.Python.Text.Commas.{comma_text, pieces, split_commas-comma_text}
use rbg_planner.Profiler.Pipeline.{ints_of, points_of}

scan_int-int_text : (n : ℤ) → scan_int (codes (int_text n)) ≡ some n
unfolding parse_int
scan_int-int_text n = parse_int-int_text n

ints_of-pieces : (ns : List ℤ) → ints_of (pieces ns) ≡ ok ns
unfolding ints_of
ints_of-pieces [] = refl
ints_of-pieces (n ∷ ns) = rw (scan_int-int_text n, ints_of-pieces ns) refl

-- Lengths that are printed with commas between them are read back as they are.
pub points_of-comma_text : (n : ℤ) (ns : List ℤ) → points_of (comma_text n ns) ≡ ok (n ∷ ns)
unfolding points_of
points_of-comma_text n ns = ap ints_of (split_commas-comma_text n ns) ∙ ints_of-pieces (n ∷ ns)
