-- ===== src/Snippet/Cluster.antt =====
-- `densestClusterCenter`: how many matches the window that it finds holds.
use mathlib.Core.List.{Mem, mem-cons_self, mem-cons_of_mem}
use gist.Prelude.{
  ℕ, ◌+◌, ◌/◌, ◌≤◌, ◌<◌, ◌≡◌, refl, ◌⊎◌, inl, inr, List, [], ◌∷◌, Bool-cases, ltb, arith, All,
  All-mono,
}
use gist.Snippet.{Span, count_in, densest_loop, densest_cluster_center}

-- The matches in the window that begins with `p`.
abbrev pub cluster : ℕ → List Span → Span → ℕ
cluster window all p = count_in p.start (p.start + window) all

-- What the loop has found, from the best before it.
record Found (window : ℕ) (all ps : List Span) (count center : ℕ) (r : ℕ × ℕ) : Type 0 where
  no_less : count ≤ r.0
  most : All (λ q. cluster window all q ≤ r.0) ps
  origin :
      ((r.0 ≡ count) × (r.1 ≡ center))
      ⊎ ((q : Span) × Mem q ps × (r.0 ≡ cluster window all q) × (r.1 ≡ q.start + window / 2))

densest_loop-Found :
    (window : ℕ) (all ps : List Span) (count center : ℕ)
    → Found window all ps count center (densest_loop window all ps count center)
unfolding densest_loop
densest_loop-Found window all [] count center = record {
  no_less = omega arith;
  most = tt;
  origin = inl (refl, refl);
}
densest_loop-Found window all (p ∷ ps) count center =
    elim (Bool-cases (ltb count (cluster window all p))) [
      | inl better ↦
          let found =
            densest_loop-Found window all ps (cluster window all p) (p.start + window / 2) in
          rw better (record {
            no_less = ground (arith, found.no_less);
            most = (found.no_less, found.most);
            origin = elim found.origin [
              | inl (n, c) ↦ inr (p, mem-cons_self, n, c)
              | inr (q, m, n, c) ↦ inr (q, mem-cons_of_mem p m, n, c)
            ];
          })
      | inr worse ↦
          let found = densest_loop-Found window all ps count center in
          rw worse (record {
            no_less = found.no_less;
            most = (ground (arith, found.no_less), found.most);
            origin = elim found.origin [
              | inl same ↦ inl same
              | inr (q, m, n, c) ↦ inr (q, mem-cons_of_mem p m, n, c)
            ];
          })
    ]

-- A match counts for the window that begins with it.
own_cluster :
    (window : ℕ) (p : Span) (ps : List Span)
    → 0 < window
    → p.start < p.end
    → 0 < cluster window (p ∷ ps) p
unfolding count_in
own_cluster window p ps h k = ground arith

-- For a window that is not empty and matches that are not empty, the centre is that of the window
-- that begins with one of the matches, and no match begins a window with more matches in it.
pub densest_cluster_center_most :
    (p : Span) (ps : List Span) (window : ℕ)
    → 0 < window
    → p.start < p.end
    → (q : Span) × Mem q (p ∷ ps)
      × (densest_cluster_center p ps window ≡ q.start + window / 2)
      × All (λ r. cluster window (p ∷ ps) r ≤ cluster window (p ∷ ps) q) (p ∷ ps)
unfolding densest_cluster_center
densest_cluster_center_most p ps window h k =
    let found = densest_loop-Found window (p ∷ ps) (p ∷ ps) 0 ((p.start + p.end) / 2) in
    elim found.origin [
      | inl (n, _) ↦ absurd (omega (arith, own_cluster window p ps h k, found.most.0))
      | inr (q, m, n, c) ↦ (q, m, c, All-mono (λ r le. omega arith) (p ∷ ps) found.most)
    ]
