-- ===== src/Manager/Table/Waiting.antt =====
-- No task that waits for a connection is forgotten.
use pulsar_rs.Shared.{
  ℕ, ◌≡◌, refl, sym, ap, ◌∙◌, Bool, true, false, Option, none, some, List, [], ◌∷◌, ◌++◌, map,
  if◌then◌else◌, Eq, ◌==◌, Bool-cases, inl, inr, append-nil, append_assoc, arith,
}
use pulsar_rs.Shared.Assoc
use pulsar_rs.Shared.Assoc.{lookup-insert, lookup-remove}
use pulsar_rs.Errors.{ConnectionError, Result, ok, err}
use pulsar_rs.Manager.Table.{
  ConnectionStatus, connected, connecting, Next, return, connect, wait, Table, Sent, on_status,
  get_connection, on_entry, connect_inner, waits, connect_failed, connect_succeeded,
  check_connections,
}

-- One holding of the lock.
pub data Event (B : Type 0) : Type 0 where
  gets : (ℕ → Bool) → B → ℕ → Event B
  connects : B → ℕ → Event B
  fails : B → Event B
  succeeds : B → ℕ → Event B
  checks : (ℕ → Bool) → Event B

-- Who started to wait, and who was notified.
abbrev joined : Next → List ℕ
joined (return c) = []
joined connect = []
joined (wait tx) = tx ∷ []

abbrev channels : Sent → List ℕ
channels = map (λ m. m.0)

abbrev pub only : Bool → List ℕ → List ℕ
only b l = if b then l else []

only-nil : (b : Bool) → only b [] ≡ []
only-nil true = refl
only-nil false = refl

channels-map :
    (r : Result ℕ ConnectionError) (txs : List ℕ) → channels (map (λ tx. (tx, r)) txs) ≡ txs
channels-map r [] = refl
channels-map r (tx ∷ txs) = ap (◌∷◌ tx) (channels-map r txs)

module _ {B : Type 0} ⦃e : Eq B⦄ where
  -- The table after the event, and, for the broker `k`, the channels of the tasks that it made wait
  -- and of those that it notified.
  abbrev pub step : B → Event B → Table B → List ℕ × List ℕ × Table B
  step k (gets v b tx) t = let (n, t) = get_connection v b tx t in (only (b == k) (joined n), [], t)
  step k (connects b tx) t = let (n, t) = connect_inner b tx t in (only (b == k) (joined n), [], t)
  step k (fails b) t = let (sent, t) = connect_failed b t in ([], only (b == k) (channels sent), t)
  step k (succeeds b c) t =
      let (sent, t) = connect_succeeded b c t in ([], only (b == k) (channels sent), t)
  step k (checks keep) t = ([], [], check_connections keep t)

  abbrev pub run : B → List (Event B) → Table B → List ℕ × List ℕ × Table B
  run k [] t = ([], [], t)
  run k (i ∷ is) t =
      let (w, n, t) = step k i t in let (ws, ns, t) = run k is t in (w ++ ws, n ++ ns, t)

  abbrev pub waiting : B → Table B → List ℕ
  waiting k t = waits (Assoc.lookup k t)

  same_broker : (b k : B) (t : Table B) → (b == k) ≡ true → waiting k t ≡ waits (Assoc.lookup b t)
  same_broker b k t h = ap (λ j. waits (Assoc.lookup j t)) (sym ((e.beq_iff b k).0 h))

  waiting-insert :
      (b k : B) (s : ConnectionStatus) (t : Table B)
      → waiting k (Assoc.insert b s t) ≡ (if b == k then waits (some s) else waiting k t)
  waiting-insert b k s t = ap waits (lookup-insert b k s t) ∙ choose (b == k)
    where
      choose :
          (c : Bool)
          → waits (if c then some s else Assoc.lookup k t)
            ≡ (if c then waits (some s) else waiting k t)
      choose true = refl
      choose false = refl

  waiting-remove :
      (b k : B) (t : Table B) → waiting k (Assoc.remove b t) ≡ (if b == k then [] else waiting k t)
  waiting-remove b k t = ap waits (lookup-remove b k t) ∙ choose (b == k)
    where
      choose :
          (c : Bool)
          → waits (if c then none else Assoc.lookup k t) ≡ (if c then [] else waiting k t)
      choose true = refl
      choose false = refl

  waiting-check_connections :
      (keep : ℕ → Bool) (k : B) (t : Table B) → waiting k (check_connections keep t) ≡ waiting k t
  unfolding check_connections Assoc.lookup
  waiting-check_connections keep k [] = refl
  waiting-check_connections keep k ((b, connecting v) ∷ t) =
      ground (arith, waiting-check_connections keep k t)
  waiting-check_connections keep k ((b, connected c) ∷ t) =
      ground
        (arith, waiting-check_connections keep k t, waiting-remove b k (check_connections keep t))

  -- What an event does to who waits for `k`.
  abbrev Keeps : B → Table B → List ℕ × List ℕ × Table B → Type 0
  Keeps k t (w, n, t') = waiting k t ++ w ≡ n ++ waiting k t'

  -- One more task waits for `b`.
  insert-Keeps :
      (b k : B) (tx : ℕ) (t : Table B) (v : List ℕ)
      → Assoc.lookup b t ≡ some (connecting v)
      → Keeps k t (only (b == k) (tx ∷ []), [], Assoc.insert b (connecting (v ++ tx ∷ [])) t)
  insert-Keeps b k tx t v q = elim (Bool-cases (b == k)) [
    | inl h ↦ rw (waiting-insert b k (connecting (v ++ tx ∷ [])) t, same_broker b k t h, q, h) refl
    | inr h ↦ rw (waiting-insert b k (connecting (v ++ tx ∷ [])) t, h) (append-nil (waiting k t))
  ]

  nobody-Keeps : (b k : B) (t : Table B) → Keeps k t (only (b == k) [], [], t)
  nobody-Keeps b k t = rw (only-nil (b == k)) (append-nil (waiting k t))

  on_status-Keeps :
      (v : ℕ → Bool) (b k : B) (tx : ℕ) (t : Table B) (o : Option ConnectionStatus)
      → Assoc.lookup b t ≡ o
      → Keeps k t (only (b == k) (joined (on_status v b tx t o).0), [], (on_status v b tx t o).1)
  unfolding on_status
  on_status-Keeps v b k tx t none q = nobody-Keeps b k t
  on_status-Keeps v b k tx t (some (connected c)) q = elim (Bool-cases (v c)) [
    | inl h ↦ rw h (nobody-Keeps b k t)
    | inr h ↦ rw h (nobody-Keeps b k t)
  ]
  on_status-Keeps v b k tx t (some (connecting w)) q = insert-Keeps b k tx t w q

  on_entry-Keeps :
      (b k : B) (tx : ℕ) (t : Table B) (o : Option ConnectionStatus)
      → Assoc.lookup b t ≡ o
      → Keeps k t (only (b == k) (joined (on_entry b tx t o).0), [], (on_entry b tx t o).1)
  unfolding on_entry
  on_entry-Keeps b k tx t none q = elim (Bool-cases (b == k)) [
    | inl h ↦ rw (waiting-insert b k (connecting []) t, same_broker b k t h, q, h) refl
    | inr h ↦ rw (waiting-insert b k (connecting []) t, h) (append-nil (waiting k t))
  ]
  on_entry-Keeps b k tx t (some (connected c)) q = nobody-Keeps b k t
  on_entry-Keeps b k tx t (some (connecting [])) q = nobody-Keeps b k t
  on_entry-Keeps b k tx t (some (connecting (x ∷ v))) q = insert-Keeps b k tx t (x ∷ v) q

  step-Keeps : (k : B) (i : Event B) (t : Table B) → Keeps k t (step k i t)
  unfolding get_connection connect_inner connect_failed connect_succeeded
  step-Keeps k (gets v b tx) t = on_status-Keeps v b k tx t (Assoc.lookup b t) refl
  step-Keeps k (connects b tx) t = on_entry-Keeps b k tx t (Assoc.lookup b t) refl
  step-Keeps k (fails b) t = elim (Bool-cases (b == k)) [
    | inl h ↦
        rw
          (
            waiting-remove b k t,
            same_broker b k t h,
            h,
            channels-map (err ConnectionError.canceled) (waits (Assoc.lookup b t)),
          )
          refl
    | inr h ↦ rw (waiting-remove b k t, h) (append-nil (waiting k t))
  ]
  step-Keeps k (succeeds b c) t = elim (Bool-cases (b == k)) [
    | inl h ↦
        rw
          (
            waiting-insert b k (connected c) t,
            same_broker b k t h,
            h,
            channels-map (ok c) (waits (Assoc.lookup b t)),
          )
          refl
    | inr h ↦ rw (waiting-insert b k (connected c) t, h) (append-nil (waiting k t))
  ]
  step-Keeps k (checks keep) t = append-nil (waiting k t) ∙ sym (waiting-check_connections keep k t)

  run-Keeps : (k : B) (is : List (Event B)) (t : Table B) → Keeps k t (run k is t)
  run-Keeps k [] t = append-nil (waiting k t)
  run-Keeps k (i ∷ is) t =
      sym (append_assoc (waiting k t) (step k i t).0 _)
      ∙ ap (λ l. l ++ (run k is (step k i t).2).0) (step-Keeps k i t)
      ∙ append_assoc (step k i t).1 (waiting k (step k i t).2) _
      ∙ ap (λ l. (step k i t).1 ++ l) (run-Keeps k is (step k i t).2)
      ∙ sym (append_assoc (step k i t).1 (run k is (step k i t).2).1 _)

  -- Over every series of calls on an empty table, in whatever order the tasks hold the lock: the tasks
  -- that were made to wait for a broker were notified or wait still, each once and in the order in
  -- which they came.
  pub run-waiting :
      (k : B) (is : List (Event B)) → (run k is []).0 ≡ (run k is []).1 ++ waiting k (run k is []).2
  unfolding Assoc.lookup
  run-waiting k is = run-Keeps k is []
