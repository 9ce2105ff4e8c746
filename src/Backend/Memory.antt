-- ===== src/Backend/Memory.antt =====
-- A backend in memory with no other writer, which shows that the assumptions can be met.
use ml_template.Backend.{Backend, IsCas}
use ml_template.Backend.History.{Versions, Unique, Later, Fresh, Later-refl}
use ml_template.Prelude.{
  List, ℕ, ◌+◌, Result, ◌∷◌, length, err, arith, Bool-cases, ◌≤◌, [], other_error, eqb, ok,
  if◌then◌else◌, inl, conflict, suc, inr, refl, ◌≡◌, ap, ◌++◌, ok-injective, eqb_iff, sym,
}
use ml_template.Backend.Chains.{Chain, Peers, At}

pub record Memory (S : Type 0) : Type 0 where
  pub states : List S
  pub time : ℕ

module _ {S : Type 0} where
  abbrev pub read_memory : List S → Result (ℕ × S)
  read_memory [] = err other_error
  read_memory (s ∷ rest) = ok (length rest, s)

  abbrev pub write_memory : ℕ → S → List S → Result (Unit {0}) × List S
  write_memory r s [] = (err other_error, [])
  write_memory r s (x ∷ rest) =
      if eqb (length rest) r then (ok tt, s ∷ x ∷ rest) else (err conflict, x ∷ rest)

  abbrev pub numbered : List S → Versions S
  numbered [] = []
  numbered (s ∷ rest) = (length rest, s) ∷ numbered rest

abbrev pub memory : (S : Type 0) → Backend S
memory S = record {
  World = Memory S;
  read_state = λ w. (read_memory w.states, w);
  write_state = λ r s w.
      let (result, states) = write_memory r s w.states in (result, record w { states = states });
  clock = λ w. (w.time, record w { time = w.time + 1000000 });
}

module _ {S : Type 0} where
  numbered-Fresh : (r : ℕ) (states : List S) → length states ≤ r → Fresh r (numbered states)
  numbered-Fresh r [] h = tt
  numbered-Fresh r (s ∷ rest) h = (omega arith, numbered-Fresh r rest (omega arith))

  pub numbered-Unique : (states : List S) → Unique (numbered states)
  numbered-Unique [] = tt
  numbered-Unique (s ∷ rest) =
      (numbered-Fresh (length rest) rest (omega arith), numbered-Unique rest)

  pub write_memory-Later :
      (r : ℕ) (s : S) (states : List S)
      → Later (numbered states) (numbered (write_memory r s states).1)
  write_memory-Later r s [] = ([], refl)
  write_memory-Later r s (x ∷ rest) = elim (Bool-cases (eqb (length rest) r)) [
    | inl same ↦ rw same ((suc (length rest), s) ∷ [], refl)
    | inr other ↦ rw other ([], refl)
  ]

  pub read_memory-newest :
      (states : List S) (r : ℕ) (s : S)
      → read_memory states ≡ ok (r, s)
      → (older : Versions S) × (numbered states ≡ (r, s) ∷ older)
  read_memory-newest [] r s e = cc
  read_memory-newest (x ∷ rest) r s e =
      (numbered rest, ap (λ v. v ∷ numbered rest) (ok-injective e))

  pub write_memory-on_top :
      (r : ℕ) (s : S) (states : List S) (u : Unit {0})
      → (write_memory r s states).0 ≡ ok u
      → (x : S) × (r' : ℕ) × (older : Versions S) × (newer : Versions S) × Later
          (numbered states)
          ((r, x) ∷ older)
        × (numbered (write_memory r s states).1 ≡ newer ++ (r', s) ∷ (r, x) ∷ older)
  write_memory-on_top r s [] u e = cc
  write_memory-on_top r s (x ∷ rest) u e = elim (Bool-cases (eqb (length rest) r)) [
    | inl same ↦
        let is : length rest ≡ r = (eqb_iff (length rest) r).0 same in
        (x, suc (length rest), numbered rest, [], rw is ([], refl), rw (same, is) refl)
    | inr other ↦ let bad = (rw other at e) in cc
  ]

  pub write_memory-Chain :
      (R : S → S → Type 0) (r : ℕ) (s : S) (states : List S)
      → Chain R (numbered states)
      → ((x : S) → At r x (numbered (write_memory r s states).1) → R x s)
      → Chain R (numbered (write_memory r s states).1)
  write_memory-Chain R r s [] chain allowed = tt
  write_memory-Chain R r s (x ∷ rest) chain allowed = elim (Bool-cases (eqb (length rest) r)) [
    | inl same ↦
        rw same
          (allowed x (rw same (inr (inl (sym ((eqb_iff (length rest) r).0 same), refl)))), chain)
    | inr other ↦ rw other chain
  ]

abbrev pub memory_IsCas : {S : Type 0} → IsCas (memory S)
memory_IsCas = record {
  versions = λ w. numbered w.states;
  unique = λ w. numbered-Unique w.states;
  clock_later = λ w. Later-refl (numbered w.states);
  read_later = λ w. Later-refl (numbered w.states);
  write_later = λ r s w. write_memory-Later r s w.states;
  read_newest = λ w r s e. read_memory-newest w.states r s e;
  write_on_top = λ r s w u e. write_memory-on_top r s w.states u e;
}

abbrev pub memory_Peers : {S : Type 0} (R : S → S → Type 0) → Peers (memory_IsCas {S = S}) R
memory_Peers R = record {
  clock_Chain = λ w chain. chain;
  read_Chain = λ w chain. chain;
  write_Chain = λ r s w chain allowed. write_memory-Chain R r s w.states chain allowed;
}
