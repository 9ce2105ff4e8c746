-- ===== src/Backend/Writes.antt =====
-- Where a write that succeeds lies among the versions.
use ml_template.Backend.{Backend, IsCas}
use ml_template.Backend.History.{
  Versions, Unique, Later, Later-trans, Unique-append, newest_of_revision,
}
use ml_template.Prelude.{ℕ, ◌≡◌, ok, ◌++◌, ap, ◌∷◌, sym, ◌∙◌}

module _ {S : Type 0} {b : Backend S} (c : IsCas b) where
  open b use {World}
  open c use {versions}

  pub record OnTop (r : ℕ) (s next : S) (w w' : World) : Type 0 where
    pub revision' : ℕ
    pub newer : Versions S
    pub older : Versions S
    pub stored : versions w' ≡ newer ++ (revision', next) ∷ (r, s) ∷ older
    pub since : Later (versions w) ((r, s) ∷ older)

  pub read_top :
      (w w1 : World) (r : ℕ) (s : S)
      → b.read_state w ≡ (ok (r, s), w1)
      → (older : Versions S) × (versions w1 ≡ (r, s) ∷ older)
  read_top w w1 r s got =
      let (older, e) = c.read_newest w r s (ap (λ p. p.0) got) in
      (older, ap (λ p. versions p.1) (sym got) ∙ e)

  pub read_since :
      (w w1 : World) (r : ℕ) (s : S)
      → b.read_state w ≡ (ok (r, s), w1)
      → Later (versions w) (versions w1)
  read_since w w1 r s got =
      let (newer, e) = c.read_later w in (newer, ap (λ p. versions p.1) (sym got) ∙ e)

  -- The write at `w2`, after a read at `w` that left the world `w1`.
  pub write-OnTop :
      (w w1 w2 : World) (r : ℕ) (s next : S)
      → b.read_state w ≡ (ok (r, s), w1)
      → Later (versions w1) (versions w2)
      → (b.write_state r next w2).0 ≡ ok tt
      → OnTop r s next w (b.write_state r next w2).1
  write-OnTop w w1 w2 r s next got later wrote =
      let (x, r', older, newer, on, stored) = c.write_on_top r next w2 tt wrote in
      let (below, top) = read_top w w1 r s got in
      let (between, e) = Later-trans later on in
      let u : Unique (newer ++ (r', next) ∷ (r, x) ∷ older) =
        rw stored at (c.unique (b.write_state r next w2).1) in
      let (same, rest) =
        newest_of_revision r x s older between below (Unique-append newer _ u).1 (rw top at e) in
      record {
        revision' = r';
        newer = newer;
        older = below;
        stored = rw (← same, ← rest) stored;
        since = rw (← top) (read_since w w1 r s got);
      }
