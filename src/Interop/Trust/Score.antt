-- ===== src/Interop/Trust/Score.antt =====
-- The score as a reputation.
use jim_agent.Prelude.{◌≡◌, refl}
use jim_agent.Interop.Trust.{laplace_score}

-- A new source starts at one half.
new_source : laplace_score 0 0 ≡ 5000
unfolding laplace_score
new_source = refl
