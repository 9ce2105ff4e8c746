-- ===== src/Legacy/Stages/Removal.antt =====
-- Removing a candidate from the queue.
use ml_template.Legacy.Types.{Release}
use ml_template.Legacy.Stages.{remove, same_release}
use ml_template.Legacy.Queue.Distinct.{Sub, kept, dropped, none_left, Sub-refl}
use ml_template.Prelude.{List, ◌∷◌, Bool-cases, inl, inr, []}

pub remove-Sub : (c : Release) (xs : List Release) → Sub (remove c xs) xs
unfolding remove
remove-Sub c [] = none_left
remove-Sub c (x ∷ xs) = elim (Bool-cases (same_release x c)) [
  | inl hit ↦ rw hit (dropped x (Sub-refl xs))
  | inr miss ↦ rw miss (kept x (remove-Sub c xs))
]
