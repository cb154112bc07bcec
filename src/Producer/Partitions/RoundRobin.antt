-- ===== src/Producer/Partitions/RoundRobin.antt =====
-- The partitions are used in turn.
use pulsar_rs.Shared.{
  ℕ, zero, suc, ◌≡◌, refl, sym, ap, ◌∙◌, Option, some, List, [], ◌∷◌, ◌++◌, length, map,
  append_assoc, append-nil,
}
use pulsar_rs.Errors.{ok}
use pulsar_rs.Producer.Partitions.{
  rotate_left, rotate_right, last, before_last, next, build, partitioned,
}

module _ {P : Type 0} where
  -- The producers that `n` calls of `next` give, and the queue after them.
  unfoldable pub turns : ℕ → List P → List (Option P) × List P
  turns zero q = ([], q)
  turns (suc n) q = let (p, q) = next q in let (ps, q) = turns n q in (p ∷ ps, q)

  turns-through :
      (xs : List P) (z : P) (ys : List P)
      → turns (length xs) (z ∷ (xs ++ ys)) ≡ (map some xs, last z xs ∷ (ys ++ before_last z xs))
  unfolding turns next last before_last rotate_left
  turns-through [] z ys = ap (λ l. ([], z ∷ l)) (sym (append-nil ys))
  turns-through (x ∷ xs) z ys =
      ap (λ t. (some x ∷ t.0, t.1))
        (ap (λ l. turns (length xs) (x ∷ l)) (append_assoc xs ys (z ∷ []))
          ∙ turns-through xs x (ys ++ z ∷ [])
          ∙ ap (λ l. (map some xs, last x xs ∷ l)) (append_assoc ys (z ∷ []) (before_last x xs)))

  last-before : (p : P) (ps : List P) → before_last p ps ++ last p ps ∷ [] ≡ p ∷ ps
  unfolding last before_last
  last-before p [] = refl
  last-before p (q ∷ ps) = ap (◌∷◌ p) (last-before q ps)

  -- The first turn brings the queue back to the order of the partitions.
  next-rotate_right : (p : P) (ps : List P) → next (rotate_right (p ∷ ps)) ≡ (some p, p ∷ ps)
  unfolding next rotate_left rotate_right
  next-rotate_right p ps = rw (last-before p ps) refl

  turns-rotate_right :
      (p : P) (ps : List P)
      → turns (length (p ∷ ps)) (rotate_right (p ∷ ps)) ≡ (map some (p ∷ ps), rotate_right (p ∷ ps))
  unfolding turns rotate_right
  turns-rotate_right p ps = rw (next-rotate_right p ps) (
      ap (λ t. (some p ∷ t.0, t.1))
        (ap (λ l. turns (length ps) (p ∷ l)) (sym (append-nil ps)) ∙ turns-through ps p []))

  -- Of a topic with two partitions or more, as many sends as there are partitions use every partition
  -- once, in the order of the partitions from the first on, and leave the queue as it was built.
  pub turns-build :
      (p q : P) (ps : List P)
      → (queue : List P) × (build (p ∷ q ∷ ps) ≡ ok (partitioned queue))
        × (turns (length (p ∷ q ∷ ps)) queue ≡ (map some (p ∷ q ∷ ps), queue))
  unfolding build
  turns-build p q ps = (rotate_right (p ∷ q ∷ ps), refl, turns-rotate_right p (q ∷ ps))
