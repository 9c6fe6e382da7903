-- ===== src/Program/Chain.antt =====
-- The proofs on the chain in the worlds that the program can reach.
use plott.Common.{
  ◌⊎◌, ℕ, ◌≤◌, ◌<◌, ◌≡◌, ◌⊎◌, inl, inr, refl, false, Bool-cases, some, none, arith, List, [], ◌∷◌,
  ◌==◌,
}
use plott.State.{RebalanceProof}
use plott.State.Keys.{zero_hash}
use plott.Runtime.{Runtime}
use plott.Admin.Validated.{initialize-ledger}
use plott.Proof.Chain.{preimage_of}
use plott.Program.Store.{find, total}
use plott.Program.World.{World, is_proof}
use plott.Program.Heads.{Head, head_of, Linked, Step-head}
use plott.Program.Step.Sound.{execute-Step}
use plott.Program.Reach.{Reachable, launched, stepped, elsewhere, launch_lem}

below_or_not : (n m : ℕ) → (n < m) ⊎ (m ≤ n)
below_or_not n m = ground arith

module _ {T : Type 0} (rt : Runtime T) where
  -- Each proof links to the one before it, down to the first, which links to zeros.
  abbrev pub IsChain : Head → List RebalanceProof → Type 0
  IsChain head [] = head ≡ record { hash = zero_hash; slot = 0; count = 0 }
  IsChain head (p ∷ ps) = (before : Head) × Linked rt before p head × IsChain before ps

  Step-IsChain :
      (v w : World T)
      → ((head_of w.config ≡ head_of v.config) × (w.proofs ≡ v.proofs))
        ⊎ ((p : RebalanceProof) × (w.proofs ≡ p ∷ v.proofs)
            × Linked rt (head_of v.config) p (head_of w.config))
      → IsChain (head_of v.config) v.proofs
      → IsChain (head_of w.config) w.proofs
  Step-IsChain v w (inl (same, kept)) chain = rw same (rw kept chain)
  Step-IsChain v w (inr (p, added, linked)) chain = rw added (head_of v.config, linked, chain)

  -- In every world that the program can reach, the proofs form one chain under the config's head: each
  -- proof holds the hash of the one before, the next sequence number, a later slot, and as its own
  -- hash the digest of what it records; the first holds a hash of zeros and number 0.
  pub Reachable-IsChain : (w : World T) → Reachable rt w → IsChain (head_of w.config) w.proofs
  Reachable-IsChain w (launched clock ctx params tokens h) =
      let (d, k, e) = launch_lem rt clock ctx params tokens w h in
      let l = initialize-ledger rt tokens clock ctx params d k in rw e (ground (arith, l))
  Reachable-IsChain w (stepped {v} clock instruction before done) =
      Step-IsChain v w (Step-head rt clock v w (execute-Step rt clock v w instruction done))
        (Reachable-IsChain v before)
  Reachable-IsChain w (elsewhere {w = v} tokens before kept) = Reachable-IsChain v before

  chain-count :
      (head : Head) (ps : List RebalanceProof)
      → IsChain head ps
      → total (λ (p : RebalanceProof). 1) ps ≡ head.count
  chain-count head [] chain = ground (arith, chain)
  chain-count head (p ∷ ps) (before, linked, chain) =
      let rest = chain-count before ps chain in ground (arith, rest, linked.next, linked.sequence)

  chain-find :
      (head : Head) (ps : List RebalanceProof) (n : ℕ)
      → IsChain head ps
      → n < head.count
      → (p : RebalanceProof) × (find (is_proof n) ps ≡ some p)
        × (p.this_hash ≡ rt.hashv (preimage_of rt.config_key p))
  unfolding find
  chain-find head [] n chain below = ground (arith, chain)
  chain-find head (p ∷ ps) n (before, linked, chain) below = elim (Bool-cases (p.sequence == n)) [
    | inl e ↦ (p, ground arith, linked.digest)
    | inr other ↦
        let (q, found, digest) =
          chain-find before ps n chain (ground (arith, linked.next, linked.sequence)) in
        (q, ground (arith, found), digest)
  ]

  chain_vacant :
      (head : Head) (ps : List RebalanceProof) (n : ℕ)
      → IsChain head ps
      → head.count ≤ n
      → find (is_proof n) ps ≡ none
  unfolding find
  chain_vacant head [] n chain above = refl
  chain_vacant head (p ∷ ps) n (before, linked, chain) above =
      let rest = chain_vacant before ps n chain (ground (arith, linked.next, linked.sequence)) in
      let other : (p.sequence == n) ≡ false = ground (arith, linked.next) in
      ground (arith, rest, other)

  -- In every world that the program can reach, the proof accounts are gapless: there are as many as the
  -- config counts; a number below the count has its account, which records its own digest; and any
  -- other number's account is vacant, so that no old account stands in the way of a proof.
  pub Reachable-gapless :
      (w : World T) (n : ℕ)
      → Reachable rt w
      → (total (λ (p : RebalanceProof). 1) w.proofs ≡ w.config.rebalance_count)
        × (((n < w.config.rebalance_count)
              × ((p : RebalanceProof) × (find (is_proof n) w.proofs ≡ some p)
                  × (p.this_hash ≡ rt.hashv (preimage_of rt.config_key p))))
            ⊎ ((w.config.rebalance_count ≤ n) × (find (is_proof n) w.proofs ≡ none)))
  Reachable-gapless w n reach =
      let chain = Reachable-IsChain w reach in
      (
        chain-count (head_of w.config) w.proofs chain,
        elim (below_or_not n w.config.rebalance_count) [
          | inl below ↦ inl (below, chain-find (head_of w.config) w.proofs n chain below)
          | inr above ↦ inr (above, chain_vacant (head_of w.config) w.proofs n chain above)
        ],
      )
