-- ===== src/Release/Stages/Leases.antt =====
-- The lease of the controllers: who may write, and for how long.
use ml_template.Release.Types.{Time, Lease, State}
use ml_template.Release.Stages.{holds_lease, is_leased, take_lease, second}
use ml_template.Prelude.{
  String_eq, String, Option, ◌≢◌, ◌≡◌, ◌≤◌, true, ltb, ◌+◌, ◌*◌, some, arith, false, eq_iff, none,
}

-- At any readings of their clocks, two controllers that both hold a lease are one.
pub holds_lease_unique :
    (a b : String) (t u : Time) (l : Option Lease)
    → holds_lease a t l ≡ true
    → holds_lease b u l ≡ true
    → a ≡ b
unfolding holds_lease
holds_lease_unique a b t u none p q = cc
holds_lease_unique a b t u (some l) p q = ground (arith, eq_iff l.owner a, eq_iff l.owner b)

-- A controller that took the lease at `t` holds it while its clock is below `t` + 50 s, and until
-- `t` + 60 s no other can take it.
pub take_lease_lem :
    (a b : String) (t u : Time) (s : State)
    → a ≢ b
    → (holds_lease a u (take_lease a t s).lease ≡ ltb (u + 10 * second) (t + 60 * second))
      × (is_leased b u (take_lease a t s).lease ≡ ltb u (t + 60 * second))
      × (is_leased a u (take_lease a t s).lease ≡ false)
unfolding holds_lease is_leased take_lease
take_lease_lem a b t u s ne = ground (arith, eq_iff a a, eq_iff a b)

-- While one controller holds the lease, no other can take it, at a clock that is at most ten
-- seconds ahead.
pub holds_lease-excludes :
    (a b : String) (t u : Time) (l : Option Lease)
    → a ≢ b
    → u ≤ t + 10 * second
    → holds_lease a t l ≡ true
    → is_leased b u l ≡ true
unfolding holds_lease is_leased
holds_lease-excludes a b t u none ne close h = cc
holds_lease-excludes a b t u (some l) ne close h =
    ground (arith, eq_iff l.owner a, eq_iff l.owner b)
