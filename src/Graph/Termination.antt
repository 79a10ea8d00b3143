-- ===== src/Graph/Termination.antt =====
-- Every run of the graph ends.
use mathlib.Core.WellFounded.{Acc}
use execution_accelerator.Prelude.{
  ℕ, zero, suc, ◌<◌, ◌≡◌, refl, ap, inl, inr, Bool, true, Option, none, some, ok, bind_ok, arith,
}
use execution_accelerator.State.{RemediationState}
use execution_accelerator.Graph.Edges.{
  Node, bootstrap_state, probe_credentials, ingest_and_parse_jira, load_repository_context,
  check_repository_idempotency, next_node,
}
use execution_accelerator.Graph.Run.{
  Adapters, Runs, Settings, Thread, advance, run_node, runs, thread_at,
}
use execution_accelerator.Graph.Rank.{at_attempt, in_attempt}
use execution_accelerator.Graph.Measure.{measure}
use execution_accelerator.Graph.Descent.{node-Descends}

-- No edge leads back to the intake.
next_node-forward :
    (dry_run : Bool) (node : Node) (s : RemediationState) (target : Option Node)
    → in_attempt node ≡ true
    → next_node dry_run node s ≡ ok target
    → at_attempt target ≡ true
unfolding next_node
next_node-forward dry_run _ s target d h = ground arith

idempotency-forward :
    (dry_run : Bool) (s : RemediationState) (target : Option Node)
    → next_node dry_run check_repository_idempotency s ≡ ok target
    → at_attempt target ≡ true
unfolding next_node
idempotency-forward dry_run s target h = ground arith

module _ (settings : Settings) where
  -- The threads from which every run is finite.
  abbrev pub Ends : Thread → Type 0
  Ends = Acc (λ later earlier. Runs settings earlier later)

  ended-Ends : (t : Thread) → t.node ≡ none → Ends t
  ended-Ends t ended =
      Acc.intro t λ u r. elim r [ runs a node at step ↦ absurd (ground (arith, ended, at)) ]

  -- A round of the graph, taken apart.
  pub round :
      (a : Adapters) (node : Node) (s : RemediationState) (t : Thread)
      → advance settings a node s ≡ ok t
      → (run_node settings a node s ≡ ok t.state)
        × (next_node settings.dry_run node t.state ≡ ok t.node)
  unfolding advance
  round a node s t h =
      let (s', ran, rest) = bind_ok (run_node settings a node s) _ h in
      let (target, edge, done) = bind_ok (next_node settings.dry_run node s') _ rest in
      let e : thread_at target s' ≡ t = ground (arith, done) in rw (← e) (ran, edge)

  -- A thread whose next round is one of those that end.
  step-Ends :
      (node : Node) (s : RemediationState)
      → ((a : Adapters) (t : Thread)
          → run_node settings a node s ≡ ok t.state
          → next_node settings.dry_run node t.state ≡ ok t.node
          → Ends t)
      → Ends (thread_at (some node) s)
  step-Ends node s next = Acc.intro (thread_at (some node) s) λ t r. elim r [
    | runs a node' at step ↦
        let same : node' ≡ node = ground (arith, at) in
        let (ran, edge) = round a node s t (rw same at step) in next a t ran edge
  ]

  attempt-Ends :
      (bound : ℕ) (target : Option Node) (s : RemediationState)
      → measure settings.limits.max_total_attempts (thread_at target s) < bound
      → at_attempt target ≡ true
      → Ends (thread_at target s)
  attempt-Ends bound none s less ahead = ended-Ends (thread_at none s) refl
  attempt-Ends zero (some node) s less ahead = absurd (omega arith)
  attempt-Ends (suc bound) (some node) s less ahead = step-Ends node s λ a t ran edge.
      elim (node-Descends settings a s node t.state t.node ahead ran edge) [
        | inl ended ↦ ended-Ends t ended
        | inr falls ↦
            attempt-Ends bound t.node t.state (omega arith)
              (next_node-forward settings.dry_run node t.state t.node ahead edge)
      ]

  forward-Ends : (t : Thread) → at_attempt t.node ≡ true → Ends t
  forward-Ends t ahead =
      attempt-Ends (suc (measure settings.limits.max_total_attempts t)) t.node t.state (omega arith)
        ahead

  idempotency-Ends : (s : RemediationState) → Ends (thread_at (some check_repository_idempotency) s)
  idempotency-Ends s =
      step-Ends check_repository_idempotency s
        λ a t ran edge. forward-Ends t (idempotency-forward settings.dry_run t.state t.node edge)

  -- The intake goes on to its next node.
  intake-Ends :
      (node next : Node)
      → ((s : RemediationState) → next_node settings.dry_run node s ≡ ok (some next))
      → ((s : RemediationState) → Ends (thread_at (some next) s))
      → (s : RemediationState) → Ends (thread_at (some node) s)
  intake-Ends node next leads ends s = step-Ends node s λ a t ran edge.
      let e : t.node ≡ some next = ground (arith, edge, leads t.state) in
      rw (ap (λ target. thread_at target t.state) e) (ends t.state)

  context-Ends : (s : RemediationState) → Ends (thread_at (some load_repository_context) s)
  unfolding next_node
  context-Ends =
      intake-Ends load_repository_context check_repository_idempotency (λ t. refl) idempotency-Ends

  ingest-Ends : (s : RemediationState) → Ends (thread_at (some ingest_and_parse_jira) s)
  unfolding next_node
  ingest-Ends = intake-Ends ingest_and_parse_jira load_repository_context (λ t. refl) context-Ends

  probe-Ends : (s : RemediationState) → Ends (thread_at (some probe_credentials) s)
  unfolding next_node
  probe-Ends = intake-Ends probe_credentials ingest_and_parse_jira (λ t. refl) ingest-Ends

  bootstrap-Ends : (s : RemediationState) → Ends (thread_at (some bootstrap_state) s)
  unfolding next_node
  bootstrap-Ends = intake-Ends bootstrap_state probe_credentials (λ t. refl) probe-Ends

  every_node-Ends : (node : Node) (s : RemediationState) → Ends (thread_at (some node) s)
  every_node-Ends bootstrap_state s = bootstrap-Ends s
  every_node-Ends probe_credentials s = probe-Ends s
  every_node-Ends ingest_and_parse_jira s = ingest-Ends s
  every_node-Ends load_repository_context s = context-Ends s
  every_node-Ends check_repository_idempotency s = idempotency-Ends s
  every_node-Ends node s = forward-Ends (thread_at (some node) s) refl

thread-Ends :
    (settings : Settings) (target : Option Node) (s : RemediationState)
    → Ends settings (thread_at target s)
thread-Ends settings none s = ended-Ends settings (thread_at none s) refl
thread-Ends settings (some node) s = every_node-Ends settings node s

-- Every run of the graph is finite, from every thread and whatever the adapters answer in each
-- round: no thread has an endless run, and a run stops at `END`, before a pause, or with a raised
-- failure. Loops of retries stop at the budget of attempts, loops over repositories as the list
-- of pending ones shrinks.
pub every_run_ends :
    (settings : Settings) (t : Thread) → Acc (λ later earlier. Runs settings earlier later) t
every_run_ends settings t = thread-Ends settings t.node t.state
