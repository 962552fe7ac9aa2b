-- ===== src/Generator/Walk/Examples.antt =====
-- A step of a worker who stands at the margin, over the naturals.
use sen_sa.Prelude.{ℕ, ◌≡◌, refl, true, false, ltb, arith}
use sen_sa.Prelude.Sample.{naturals}
use sen_sa.Generator.Walk.{Walker, right_edge, bottom_edge, pushed, bounced, move_worker}
use sen_sa.Generator.Walk.Inside.{Order, IsWithin, move_worker-IsWithin}

abbrev worker : Walker ℕ
worker = record { x = 1319; y = 3; dx = 4; dy = 0 }

bounces : (move_worker naturals 0 0 worker).x ≡ 1320
unfolding move_worker pushed bounced
bounces = refl

number_asym : (a b : ℕ) → ltb a b ≡ true → ltb b a ≡ false
number_asym a b h = ground arith

order : Order naturals
order = record { asym = number_asym; right = refl; bottom = refl }

move_worker-IsWithin_example :
    let w = move_worker naturals 0 0 worker in
    IsWithin naturals (right_edge naturals) w.x × IsWithin naturals (bottom_edge naturals) w.y
move_worker-IsWithin_example = move_worker-IsWithin naturals order 0 0 worker
