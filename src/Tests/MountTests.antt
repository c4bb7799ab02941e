-- ===== src/Tests/MountTests.antt =====
-- A device that keeps a log of its writes, and a mount on it of eight sectors.
use plinth_os.Base.{ℕ, List, [], ◌∷◌, ◌==◌, ◌&&◌, if◌then◌else◌}
use plinth_os.Rwfs.Mount.{Device}
use plinth_os.Rwfs.Mount.Outcome.{Outcome}

abbrev Log : Type 0
Log = List (ℕ × ℕ × List ℕ)

abbrev look_up : Log → ℕ → ℕ → List ℕ
look_up [] s n = []
look_up ((at, count, xs) ∷ log) s n = if (at == s) && (count == n) then xs else look_up log s n

abbrev logging : Device Log
logging = record {
  write = λ log s n xs. ((s, n, xs) ∷ log, 0);
  read = λ log s n. (if n == 0 then [] else look_up log s n, 0);
}

abbrev file_name : List ℕ
file_name = 0x61 ∷ 0x62 ∷ []
