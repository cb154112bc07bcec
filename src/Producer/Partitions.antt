-- ===== src/Producer/Partitions.antt =====
-- `PartitionedProducer` and `Producer` of src/producer.rs: one producer for every partition of a
-- topic. A `VecDeque` is a list; the functions are those of any producer of one topic.
pub mod RoundRobin
use pulsar_rs.Shared.{Bool, Option, none, some, List, [], ◌∷◌, ◌++◌}
use pulsar_rs.Errors.{Error, custom, Result, ok, err}

module _ {P : Type 0} where
  -- `VecDeque::rotate_left(1)` and `rotate_right(1)` of the standard library, where the list is not
  -- empty; these methods panic on an empty one, and the lists here have two producers or more.
  unfoldable pub rotate_left : List P → List P
  rotate_left [] = []
  rotate_left (p ∷ ps) = ps ++ p ∷ []

  -- The last of `p ∷ ps`, and what stands before it.
  unfoldable pub last : P → List P → P
  last p [] = p
  last p (q ∷ ps) = last q ps

  unfoldable pub before_last : P → List P → List P
  before_last p [] = []
  before_last p (q ∷ ps) = p ∷ before_last q ps

  unfoldable pub rotate_right : List P → List P
  unfolding last before_last
  rotate_right [] = []
  rotate_right (p ∷ ps) = last p ps ∷ before_last p ps

  abbrev front : List P → Option P
  front [] = none
  front (p ∷ ps) = some p

  -- `next`: the rotated producers, the first of which is used; `none` is the panic of `unwrap`.
  unfoldable pub next : List P → Option P × List P
  unfolding rotate_left
  next producers = let producers = rotate_left producers in (front producers, producers)

-- `ProducerInner`.
pub data ProducerInner (P : Type 0) : Type 0 where
  single : P → ProducerInner P
  partitioned : List P → ProducerInner P

-- The end of `build`: the producers of the topic's partitions become one producer.
unfoldable pub build : {P : Type 0} → List P → Result (ProducerInner P) Error
unfolding rotate_right
build [] = err custom
build (p ∷ []) = ok (single p)
build (p ∷ q ∷ ps) = ok (partitioned (rotate_right (p ∷ q ∷ ps)))
