-- ===== src/Graph/Measure.antt =====
-- The number that falls with every node behind the intake.
use execution_accelerator.Prelude.{
  ap, length, none, ℕ, suc, ◌+◌, ◌-◌, ◌*◌, ◌≤◌, ◌<◌, ◌≡◌, Option, some, arith,
}
use execution_accelerator.State.{RemediationState}
use execution_accelerator.Graph.Edges.{Node}
use execution_accelerator.Graph.Rank.{rank, rank_at}
use execution_accelerator.Graph.Run.{Thread, thread_at}
use execution_accelerator.Graph.Work.{Keeps, open_work, stray}

Keeps-work : (s s' : RemediationState) → Keeps s s' → open_work s' ≤ open_work s
Keeps-work s s' k =
    let e : stray s'.current_working_repo s'.pending_repos
        ≡ stray s'.current_working_repo s.pending_repos =
      ap (stray s'.current_working_repo) k.pending in
    let l : length s'.pending_repos ≡ length s.pending_repos = ap length k.pending in
    let c = k.current in omega arith

pub rank_at_bound : (target : Option Node) → rank_at target < 16
rank_at_bound none = omega arith
rank_at_bound (some Node.detect_maven_profile) = omega arith
rank_at_bound (some _) = omega arith

module _ (max_total_attempts : ℕ) where
  -- What is open, each unit with all its attempts, and the attempts that are left.
  abbrev pub effort : ℕ → ℕ → ℕ
  effort work attempts = work * suc max_total_attempts + (max_total_attempts - attempts)

  pub measure : Thread → ℕ
  measure t = effort (open_work t.state) t.state.total_attempts * 16 + rank_at t.node

  effort_mono : (w w' attempts : ℕ) → w' ≤ w → effort w' attempts ≤ effort w attempts
  effort_mono w w' attempts h = grind arith

  effort_work : (w w' attempts attempts' : ℕ) → w' < w → effort w' attempts' < effort w attempts
  effort_work w w' attempts attempts' h =
      let more : w' * suc max_total_attempts + suc max_total_attempts ≤ w * suc max_total_attempts =
        grind arith in
      omega arith

  -- A node that finishes nothing and leads downwards.
  pub Keeps-measure :
      (s s' : RemediationState) (node : Node) (target : Option Node)
      → Keeps s s'
      → rank_at target < rank node
      → measure (thread_at target s') < measure (thread_at (some node) s)
  unfolding measure
  Keeps-measure s s' node target k down =
      let less : effort (open_work s') s.total_attempts ≤ effort (open_work s) s.total_attempts =
        effort_mono (open_work s) (open_work s') s.total_attempts (Keeps-work s s' k) in
      let same : effort (open_work s') s'.total_attempts ≡ effort (open_work s') s.total_attempts =
        ap (effort (open_work s')) k.attempts in
      omega arith

  -- A node that leaves less work, whatever comes next.
  pub work-measure :
      (s s' : RemediationState) (node : Node) (target : Option Node)
      → open_work s' < open_work s
      → rank_at target < 16
      → measure (thread_at target s') < measure (thread_at (some node) s)
  unfolding measure
  work-measure s s' node target less bound =
      let fewer : effort (open_work s') s'.total_attempts < effort (open_work s) s.total_attempts =
        effort_work (open_work s) (open_work s') s.total_attempts s'.total_attempts less in
      omega arith

  -- A node that uses up an attempt that was there.
  pub attempt-measure :
      (s s' : RemediationState) (node : Node) (target : Option Node)
      → open_work s' ≡ open_work s
      → s'.total_attempts ≡ s.total_attempts + 1
      → s.total_attempts + 1 < max_total_attempts
      → rank_at target < 16
      → measure (thread_at target s') < measure (thread_at (some node) s)
  unfolding measure
  attempt-measure s s' node target same used room bound =
      let e1 : effort (open_work s') s'.total_attempts ≡ effort (open_work s) s'.total_attempts =
        ap (λ w. effort w s'.total_attempts) same in
      let e2 : effort (open_work s) s'.total_attempts + 1 ≡ effort (open_work s) s.total_attempts =
        omega arith in
      omega arith

  -- A node that uses up an attempt, and leads downwards.
  pub used-measure :
      (s s' : RemediationState) (node : Node) (target : Option Node)
      → open_work s' ≡ open_work s
      → s'.total_attempts ≡ s.total_attempts + 1
      → rank_at target < rank node
      → measure (thread_at target s') < measure (thread_at (some node) s)
  unfolding measure
  used-measure s s' node target same used down =
      let e1 : effort (open_work s') s'.total_attempts ≡ effort (open_work s) s'.total_attempts =
        ap (λ w. effort w s'.total_attempts) same in
      omega arith
