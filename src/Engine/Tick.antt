-- ===== src/Engine/Tick.antt =====
-- server/engine.cpp and client/main.cpp: the pace of the loop.
use f1985gfw.Base.{ℕ, ◌+◌, ◌≤◌, ◌<◌, ◌≡◌, arith}
use f1985gfw.Engine.{next_delta, tick_interval}

-- The timer is always set to 1 to 16 milliseconds; a round that takes less than 16 milliseconds is waited out to exactly
-- 16, and a longer one is followed by a wait of 1.
pub next_delta-period :
    (spent : ℕ)
    → (1 ≤ next_delta spent)
      × (next_delta spent ≤ tick_interval)
      × (spent < tick_interval → spent + next_delta spent ≡ tick_interval)
      × (tick_interval ≤ spent → next_delta spent ≡ 1)
unfolding next_delta
next_delta-period spent = (ground arith, ground arith, λ h. ground arith, λ h. ground arith)
