-- ===== src/Part/Siblings.antt =====
-- The test for overlaps among the partitions of one plan 9 table.
use inferno_kirkwood.Prelude.{
  ℕ, ◌+◌, ◌-◌, ◌*◌, ◌^◌, ◌≤◌, ◌<◌, ◌≡◌, refl, List, [], ◌∷◌, ◌++◌, All, drop, u64,
}
use inferno_kirkwood.Port.{ok}
use inferno_kirkwood.Part.Defs.{Part, IsNonneg}
use inferno_kirkwood.Part.Names.{partgenname}
use inferno_kirkwood.Part.Overlap.{HasNonneg, partcheck-after}
use inferno_kirkwood.Part.Init.{new_part, plan9_entry}

module _ (seprint : ℕ → List ℕ → List ℕ × ℕ) (tokenize : List ℕ → List (List ℕ))
    (strtoull : List ℕ → ℕ) (eve : List ℕ) (stale : ℕ) where
  -- A line of the table in partition `i`, with a name that is found and an extent within that
  -- partition, is accepted wherever the earlier partitions of the table are, once all partitions
  -- after `i` begin at or behind the size of partition `i`, as they do where it begins there:
  -- the new extent is compared before it is moved to the place of partition `i`.
  pub plan9_entry_unchecked :
      (i : ℕ) (whole : Part) (parts : List Part) (f1 f2 f3 : List ℕ) {name : List ℕ}
      → partgenname seprint parts f1 f1 ≡ ok name
      → IsNonneg whole.size
      → u64 (strtoull f2 * 512) ≤ u64 (strtoull f3 * 512)
      → u64 (strtoull f3 * 512) ≤ whole.size
      → All HasNonneg (drop 1 (drop i parts))
      → All (λ q. (whole.size ≤ q.s) × (q.s < q.e)) (drop 1 (drop i parts))
      → let s = u64 (strtoull f2 * 512) in
        let e = u64 (strtoull f3 * 512) in
        let n = u64 (e + 2 ^ 64 - s) in
        plan9_entry seprint tokenize strtoull eve stale i whole parts (f1, f2, f3)
        ≡ ok (
            parts ++ (new_part eve parts stale name (u64 (s + whole.s)) (u64 (e + whole.e)) n ∷ []))
  unfolding plan9_entry
  plan9_entry_unchecked i whole parts f1 f2 f3 {name} named small ordered within h after =
      let s = u64 (strtoull f2 * 512) in
      let e = u64 (strtoull f3 * 512) in
      let checked =
        partcheck-after (new_part eve parts stale name s e (u64 (e + 2 ^ 64 - s))) (drop i parts)
          whole.size small ordered within h after in
      rw (named, checked) refl
