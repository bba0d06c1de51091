-- ===== src/Harness/Commits.antt =====
-- mit6.824/src/raft/config.go: what `nCommitted` returns.
use distribute_system_lab.Prelude.{
  ℕ, zero, suc, ◌+◌, ◌≡◌, ◌<◌, refl, sym, ap, ◌∙◌, inl, inr, true, false, Option, none, some,
  Option-cases, arith, if◌then◌else◌, ℕ_discrete, count,
}
use distribute_system_lab.Raft.Cluster.Ballots.{upto}
use distribute_system_lab.Harness.Apply.{Applied, is_some, Applies, commit_loop, n_committed}
use distribute_system_lab.Harness.ApplyLaws.{Agreed, Applies-Agreed}

-- How many of the first servers have applied a command at the index.
abbrev pub appliers : Applied → ℕ → ℕ → ℕ
appliers cfg index k = count is_some (upto (λ a. cfg.logs a index) k)

-- What the loop of `nCommitted` knows after some servers: the command is what they all applied.
abbrev Known : Applied → ℕ → ℕ → Option ℕ → Type 0
Known cfg index found cmd =
    0 < found
    → (v : ℕ) × (cmd ≡ some v) × ((a w : ℕ) → a < cfg.n → cfg.logs a index ≡ some w → w ≡ v)

commit_loop-none :
    (logs : ℕ → ℕ → Option ℕ) (index k i found : ℕ) (cmd : Option ℕ)
    → logs i index ≡ none
    → commit_loop logs index (suc k) i found cmd ≡ commit_loop logs index k (i + 1) found cmd
unfolding commit_loop
commit_loop-none logs index k i found cmd e = rw (e, commit_loop) refl

commit_loop-some :
    (logs : ℕ → ℕ → Option ℕ) (index k i found v : ℕ) (cmd : Option ℕ)
    → logs i index ≡ some v
    → (0 < found → cmd ≡ some v)
    → commit_loop logs index (suc k) i found cmd
      ≡ commit_loop logs index k (i + 1) (found + 1) (some v)
unfolding commit_loop
commit_loop-some logs index k i zero v none e known =
    rw (e, commit_loop) (ap (commit_loop logs index k (i + 1) 1) e)
commit_loop-some logs index k i zero v (some w) e known =
    rw (e, commit_loop) (ap (commit_loop logs index k (i + 1) 1) e)
commit_loop-some logs index k i (suc found) v none e known =
    absurd (ground (arith, known (omega arith)))
commit_loop-some logs index k i (suc found) v (some w) e known =
    let same : w ≡ v = ground (arith, known (omega arith)) in
    rw (e, commit_loop)
      (ground (arith, ap (commit_loop logs index k (i + 1) (suc found + 1)) e, same))

appliers-next :
    (cfg : Applied) (index i : ℕ) (o : Option ℕ)
    → cfg.logs i index ≡ o
    → appliers cfg index (i + 1)
      ≡ (if is_some o then appliers cfg index i + 1 else appliers cfg index i)
appliers-next cfg index i o e =
    let at : i + 1 ≡ suc i = omega arith in
    rw at (
      rw e
        (elim o
          as (λ x.
            (elim (is_some x) [ true ↦ suc (appliers cfg index i) | false ↦ appliers cfg index i ])
            ≡ (if is_some x then appliers cfg index i + 1 else appliers cfg index i)) [
              | none ↦ refl
              | some v ↦ omega arith
            ]))

appliers_pos :
    (cfg : Applied) (index a v k : ℕ) → a < k → cfg.logs a index ≡ some v → 0 < appliers cfg index k
appliers_pos cfg index a v zero l e = absurd (omega arith)
appliers_pos cfg index a v (suc k) l e = elim (ℕ_discrete a k) [
  | yes i ↦ rw (ap (λ x. cfg.logs x index) (sym i) ∙ e) (omega arith)
  | no i ↦ ground (arith, appliers_pos cfg index a v k (omega (arith, i, l)) e)
]

commit_loop_lem :
    (cfg : Applied) (index k i found : ℕ) (cmd : Option ℕ)
    → Agreed cfg
    → i + k ≡ cfg.n
    → found ≡ appliers cfg index i
    → Known cfg index found cmd
    → (cmd' : Option ℕ) × (commit_loop cfg.logs index k i found cmd
        ≡ some (appliers cfg index (i + k), cmd'))
      × Known cfg index (appliers cfg index (i + k)) cmd'
unfolding commit_loop
commit_loop_lem cfg index zero i found cmd ok end e known =
    let at : i + zero ≡ i = omega arith in
    rw at (cmd, ap (λ c. some (c, cmd)) e, λ p. known (omega (arith, e, p)))
commit_loop_lem cfg index (suc k) i found cmd ok end e known =
    let at : i + suc k ≡ (i + 1) + k = omega arith in
    let end' : (i + 1) + k ≡ cfg.n = sym at ∙ end in
    rw at (elim (Option-cases (cfg.logs i index)) [
      | inl missing ↦
          let (cmd', run, known') =
            commit_loop_lem cfg index k (i + 1) found cmd ok end'
              (e ∙ sym (appliers-next cfg index i none missing)) known in
          (cmd', commit_loop-none cfg.logs index k i found cmd missing ∙ run, known')
      | inr (v, q) ↦
          let first : 0 < found → cmd ≡ some v = λ p.
            let (w, ew, only) = known p in ew ∙ ap some (sym (only i v (omega (arith, end)) q)) in
          let (cmd', run, known') =
            commit_loop_lem cfg index k (i + 1) (found + 1) (some v) ok end'
              (ap (λ c. c + 1) e ∙ sym (appliers-next cfg index i (some v) q))
              (λ p. (v, refl, λ a w l h. ok.same a i index w v l (omega (arith, end)) h q)) in
          (cmd', commit_loop-some cfg.logs index k i found v cmd q first ∙ run, known')
    ])

-- As long as no reader stops the test, `nCommitted` does not stop it either: it returns how many
-- servers have applied a command at the index, and, if there is one, the command that all of them
-- have applied there.
pub n_committed_lem :
    (n : ℕ) {cfg : Applied} (index : ℕ)
    → Applies n cfg
    → (cmd : Option ℕ) × (n_committed cfg index
        ≡ some (count is_some (upto (λ a. cfg.logs a index) n), cmd))
      × ((a v : ℕ) → a < n → cfg.logs a index ≡ some v → cmd ≡ some v)
unfolding n_committed
n_committed_lem n {cfg} index r =
    let (ok, en) = Applies-Agreed n r in
    let (cmd, run, known) =
      commit_loop_lem cfg index cfg.n 0 0 none ok (omega arith) refl
        (λ p. absurd (omega (arith, p))) in
    let at : 0 + cfg.n ≡ n = omega (arith, en) in
    (
      cmd,
      run ∙ ap (λ k. some (appliers cfg index k, cmd)) at,
      λ a v l e.
          let (w, ew, only) =
            known (appliers_pos cfg index a v (0 + cfg.n) (omega (arith, en, l)) e) in
          ew ∙ ap some (sym (only a v (omega (arith, en, l)) e)),
    )
