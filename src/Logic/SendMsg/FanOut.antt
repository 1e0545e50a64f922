-- ===== src/Logic/SendMsg/FanOut.antt =====
-- Who gets a group message.
use link_im.Prelude.{Bool, false, not, ◌&&◌, ◌||◌, List, [], ◌∷◌, ◌≡◌, refl, arith}
use link_im.Prelude.Int.{ℤ, eq_ℤ, eq_ℤ_iff}
use link_im.Logic.SendMsg.Run.{fan_out}

abbrev pub contains : ℤ → List ℤ → Bool
contains u [] = false
contains u (m ∷ ms) = eq_ℤ m u || contains u ms

-- The membership test of the loop finds the sender wherever it stands, and the receivers are all
-- the other members: a uid is a receiver exactly if it is a member and not the sender.
pub fan_out_lem :
    (sender : ℤ) (ms : List ℤ)
    → ((fan_out sender ms).0 ≡ contains sender ms)
      × ((u : ℤ) → contains u (fan_out sender ms).1 ≡ contains u ms && not (eq_ℤ sender u))
unfolding fan_out
fan_out_lem sender [] = (refl, λ u. refl)
fan_out_lem sender (m ∷ ms) =
    let (is_member, others) = fan_out_lem sender ms in
    (
      ground arith,
      λ u. ground (arith, others u, eq_ℤ_iff m sender, eq_ℤ_iff m u, eq_ℤ_iff sender u),
    )
