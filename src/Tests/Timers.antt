-- ===== src/Tests/Timers.antt =====
-- The timer: its reset, and the packets that it repeats.
use bzrtp.Common.{ℕ, List, [], ◌∷◌}
use bzrtp.Timer.{Timer, non_hello, start_timer, iterate}

abbrev ticked_twice : Timer
ticked_twice = (iterate non_hello 600 (iterate non_hello 300 (start_timer non_hello 100)).0).0

abbrev tick_times : List ℕ
tick_times = 300 ∷ 600 ∷ 900 ∷ []

-- Fourteen ticks, of which eleven send a Commit again.
abbrev far_times : List ℕ
far_times =
    2000 ∷ 4000 ∷ 6000 ∷ 8000 ∷ 10000 ∷ 12000 ∷ 14000 ∷ 16000 ∷ 18000 ∷ 20000 ∷ 22000 ∷ 24000
    ∷ 26000 ∷ 28000 ∷ []
