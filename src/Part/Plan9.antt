-- ===== src/Part/Plan9.antt =====
-- Where the partitions of the plan 9 tables lie, and what `partinit` returns altogether.
use inferno_kirkwood.Prelude.{
  ℕ, zero, suc, ◌+◌, ◌-◌, ◌*◌, ◌^◌, ◌≤◌, ◌<◌, ◌≡◌, refl, sym, ap, subst, ◌∙◌, inl, inr, arith,
  false, some, List, [], ◌∷◌, ◌++◌, All, All-append, get_elem?, get_elem?-append_left, length, drop,
  Bool-cases, Option-cases, u64, ◌==◌, ◌||◌, not, biased, signed_ltb,
}
use mathlib.Core.List.{append_assoc, append-nil}
use inferno_kirkwood.Port.{Error, Result, ok, raise_if, >>=-eq-ok}
use inferno_kirkwood.Part.Defs.{Part, IsNonneg}
use inferno_kirkwood.Part.Names.{partgenname}
use inferno_kirkwood.Part.Check.{partcheck}
use inferno_kirkwood.Part.Layout.{IsBytes, IsPlaced, IsLaidOut, mbr_loop-IsLaidOut}
use inferno_kirkwood.Part.Init.{
  byte_at, new_part, part_fields, lines_from, mbr_loop, plan9_entry, plan9_line, plan9_table,
  plan9_part, plan9_loop, partinit,
}

-- The extent that is read and written, from `s` on and `size` long: as `vlong`s its start is at
-- most its end, and its end at most that of the disk. The field `e` is not its end, but that and
-- the size of `around`, the partition of `mbr` whose table lists it.
pub record EndsWithin (disk : ℕ) (mbr : List Part) (p : Part) : Type 0 where
  pub ordered : biased p.s ≤ biased (u64 (p.s + p.size))
  pub within : biased (u64 (p.s + p.size)) ≤ biased disk
  pub around : Part
  pub listed : (i : ℕ) × (get_elem? mbr i ≡ some around)
  pub plan9 : around.typ ≡ 0x39
  pub big : (1024 ≤ around.size) × (around.size ≤ disk)
  pub recorded : p.e ≡ u64 (p.s + p.size + around.size)

-- The partitions `mbr` and behind them others that end within the disk.
pub record Extends (size : ℕ) (mbr parts : List Part) : Type 0 where
  pub more : List Part
  pub listed : parts ≡ mbr ++ more
  pub ends : All (λ p. EndsWithin size mbr p) more

-- The first two tests of `partcheck`.
partcheck_bounds :
    (p : Part) (parts : List Part) (size : ℕ)
    → partcheck p parts size ≡ ok tt
    → (biased p.e ≤ biased size) × (biased p.s ≤ biased p.e)
unfolding partcheck
partcheck_bounds p parts size e = ground (arith, e)

-- A partition of `mbr` that has a plan 9 table.
record HasTable (size : ℕ) (mbr : List Part) (whole : Part) : Type 0 where
  placed : IsPlaced size whole
  big : 1024 ≤ whole.size
  listed : (i : ℕ) × (get_elem? mbr i ≡ some whole)
  plan9 : whole.typ ≡ 0x39

module _ (seprint : ℕ → List ℕ → List ℕ × ℕ) (tokenize : List ℕ → List (List ℕ))
    (strtoull : List ℕ → ℕ) (eve : List ℕ) (stale size : ℕ) (small : IsNonneg size)
    (mbr : List Part) where
  append-Extends :
      (p : Part) {parts : List Part}
      → Extends size mbr parts
      → EndsWithin size mbr p
      → Extends size mbr (parts ++ (p ∷ []))
  append-Extends p {parts} x ends = record {
    more = x.more ++ (p ∷ []);
    listed = ap (λ (l : List Part). l ++ (p ∷ [])) x.listed ∙ append_assoc mbr x.more (p ∷ []);
    ends = All-append (λ q. EndsWithin size mbr q) x.more (p ∷ []) x.ends (ends, tt);
  }

  -- `s` and `e` are the numbers of a line.
  shifted-EndsWithin :
      (whole p : Part) (s e : ℕ)
      → HasTable size mbr whole
      → biased e ≤ biased whole.size
      → biased s ≤ biased e
      → s < 2 ^ 64
      → e < 2 ^ 64
      → EndsWithin size mbr
          (record p { s = u64 (s + whole.s); e = u64 (e + whole.e); size = u64 (e + 2 ^ 64 - s) })
  shifted-EndsWithin whole p s e table within ordered hs he =
      let placed = table.placed in
      record {
        ordered = omega (arith, placed.sized, placed.within);
        within = omega (arith, placed.sized, placed.within);
        around = whole;
        listed = table.listed;
        plan9 = table.plan9;
        big = omega (arith, table.big, placed.sized, placed.within);
        recorded = omega (arith, placed.sized, placed.within);
      }

  plan9_entry-Extends :
      (i : ℕ) (whole : Part) (parts : List Part) (f : List ℕ × List ℕ × List ℕ) {parts' : List Part}
      → HasTable size mbr whole
      → Extends size mbr parts
      → plan9_entry seprint tokenize strtoull eve stale i whole parts f ≡ ok parts'
      → Extends size mbr parts'
  unfolding plan9_entry
  plan9_entry-Extends i whole parts f table x e =
      let (name, named, later) = >>=-eq-ok (partgenname seprint parts f.0 f.0) _ e in
      let s = u64 (strtoull f.1 * 512) in
      let stop = u64 (strtoull f.2 * 512) in
      let (_, checked, last) = >>=-eq-ok (partcheck _ (drop i parts) whole.size) _ later in
      let (within, ordered) = partcheck_bounds _ (drop i parts) whole.size checked in
      subst (λ l. Extends size mbr l) (cc last)
        (append-Extends _ x (
          shifted-EndsWithin whole (new_part eve parts stale name s stop 0) s stop table within
            ordered (omega arith) (omega arith)))

  plan9_line-Extends :
      (i : ℕ) (whole : Part) (parts : List Part) (line : List ℕ) {parts' : List Part}
      → HasTable size mbr whole
      → Extends size mbr parts
      → plan9_line seprint tokenize strtoull eve stale i whole parts line ≡ ok parts'
      → Extends size mbr parts'
  unfolding plan9_line
  plan9_line-Extends i whole parts line table x e =
      elim (Option-cases (part_fields (tokenize line))) [
        | inl bad ↦ absurd (cc (rw (bad, plan9_line) at e))
        | inr (f, found) ↦ plan9_entry-Extends i whole parts f table x (rw (found, plan9_line) at e)
      ]

  plan9_table-Extends :
      (i : ℕ) (whole : Part) (parts : List Part) (lines : List (List ℕ)) {parts' : List Part}
      → HasTable size mbr whole
      → Extends size mbr parts
      → plan9_table seprint tokenize strtoull eve stale i whole parts lines ≡ ok parts'
      → Extends size mbr parts'
  unfolding plan9_table
  plan9_table-Extends i whole parts [] table x e = subst (λ l. Extends size mbr l) (cc e) x
  plan9_table-Extends i whole parts (line ∷ lines) table x e =
      let (next, one, later) =
        >>=-eq-ok (plan9_line seprint tokenize strtoull eve stale i whole parts line) _ e in
      plan9_table-Extends i whole next lines table
        (plan9_line-Extends i whole parts line table x one) later

big_of_table :
    (size : ℕ) (p : Part)
    → IsNonneg size
    → IsPlaced size p
    → (not (p.typ == 0x39) || signed_ltb p.size (2 * 512)) ≡ false
    → 1024 ≤ p.size
big_of_table size p small placed e = ground (arith, placed.sized, placed.within, placed.ordered)

All-get_elem? :
    (P : Part → Type 0) (ps : List Part) (i : ℕ) {p : Part}
    → All P ps
    → get_elem? ps i ≡ some p
    → P p
All-get_elem? P [] i h e = absurd (cc e)
All-get_elem? P (q ∷ ps) zero h e = subst P (cc e) h.0
All-get_elem? P (q ∷ ps) (suc i) h e = All-get_elem? P ps i h.1 e

module _ (seprint : ℕ → List ℕ → List ℕ × ℕ) (tokenize : List ℕ → List (List ℕ))
    (strtoull : List ℕ → ℕ) (eve : List ℕ) (stale : ℕ) (read : ℕ → ℕ → Result (List ℕ)) (size : ℕ)
    (small : IsNonneg size) (whole : Part) (mbr : List Part) (laid : IsLaidOut size whole mbr) where
  -- Partition `i + 1` is one of the first table, while that index is below its number.
  found-listed :
      (i : ℕ) (parts : List Part) {p : Part}
      → suc i < length mbr
      → Extends size mbr parts
      → get_elem? parts (suc i) ≡ some p
      → get_elem? mbr (suc i) ≡ some p
  found-listed i parts {p} h x e =
      sym (get_elem?-append_left mbr x.more (suc i) h)
      ∙ subst (λ l. get_elem? l (suc i) ≡ some p) x.listed e

  found-HasTable :
      (i : ℕ) (parts : List Part) {p : Part}
      → suc i < length mbr
      → Extends size mbr parts
      → get_elem? parts (suc i) ≡ some p
      → (not (p.typ == 0x39) || signed_ltb p.size (2 * 512)) ≡ false
      → HasTable size mbr p
  found-HasTable i parts {p} h x e is_table =
      let there = found-listed i parts h x e in
      let placed =
        All-get_elem? (λ q. IsPlaced size q) laid.rest i laid.placed
          (subst (λ l. get_elem? l (suc i) ≡ some p) laid.listed there) in
      record {
        placed = placed;
        big = big_of_table size p small placed is_table;
        listed = (suc i, there);
        plan9 = ground (arith, is_table);
      }

  plan9_part-Extends :
      (i : ℕ) (parts : List Part) {parts' : List Part}
      → suc i < length mbr
      → Extends size mbr parts
      → plan9_part seprint tokenize strtoull eve stale read (suc i) parts ≡ ok parts'
      → Extends size mbr parts'
  unfolding plan9_part
  plan9_part-Extends i parts {parts'} h x e = elim (Option-cases (get_elem? parts (suc i))) [
    | inl missing ↦ absurd (cc (rw (missing, plan9_part) at e))
    | inr (p, found) ↦
        let e' = rw (found, plan9_part) at e in
        elim (Bool-cases (not (p.typ == 0x39) || signed_ltb p.size (2 * 512))) [
          | inl other ↦ subst (λ l. Extends size mbr l) (cc (rw other at e')) x
          | inr table ↦
              let (sector, reading, later) =
                >>=-eq-ok (read 512 (u64 (p.s + 512))) _ (rw table at e') in
              let (_, full, last) =
                >>=-eq-ok (raise_if (not (length sector == 512)) Error.reading_plan9) _ later in
              plan9_table-Extends seprint tokenize strtoull eve stale size small mbr (suc i) p parts
                (lines_from [] sector) (found-HasTable i parts h x found table) x last
        ]
  ]

  plan9_loop-Extends :
      (rounds i : ℕ) (parts : List Part) {parts' : List Part}
      → i + rounds < length mbr
      → Extends size mbr parts
      → plan9_loop seprint tokenize strtoull eve stale read rounds (suc i) parts ≡ ok parts'
      → Extends size mbr parts'
  unfolding plan9_loop
  plan9_loop-Extends zero i parts h x e = subst (λ l. Extends size mbr l) (cc e) x
  plan9_loop-Extends (suc rounds) i parts h x e =
      let (next, one, later) =
        >>=-eq-ok (plan9_part seprint tokenize strtoull eve stale read (suc i) parts) _ e in
      plan9_loop-Extends rounds (suc i) next (omega arith)
        (plan9_part-Extends i parts (omega arith) x one)
        (let next_index : suc i + 1 ≡ suc (suc i) = omega arith in rw next_index at later)

module _ (seprint : ℕ → List ℕ → List ℕ × ℕ) (tokenize : List ℕ → List (List ℕ))
    (strtoull : List ℕ → ℕ) (eve : List ℕ) (stale : ℕ) (read : ℕ → ℕ → Result (List ℕ))
    (bytes : (n off : ℕ) (sector : List ℕ) → read n off ≡ ok sector → IsBytes sector) where
  pub partinit-Extends :
      (size : ℕ) (whole : Part) {parts : List Part}
      → IsNonneg size
      → partinit seprint tokenize strtoull eve stale read size (whole ∷ []) ≡ ok parts
      → (mbr : List Part) × IsLaidOut size whole mbr × Extends size mbr parts
  unfolding partinit
  partinit-Extends size whole {parts} small e =
      let (p, reading, e1) = >>=-eq-ok (read 512 0) _ e in
      let (_, full, e2) = >>=-eq-ok (raise_if (not (length p == 512)) Error.reading_mbr) _ e1 in
      let (_, signed, e3) =
        >>=-eq-ok
          (raise_if (not (byte_at p 510 == 0x55) || not (byte_at p 511 == 0xaa))
            Error.missing_mbr_signature)
          _ e2 in
      let (mbr, table, last) = >>=-eq-ok (mbr_loop seprint eve p size 4 0 (whole ∷ [])) _ e3 in
      let laid =
        mbr_loop-IsLaidOut seprint eve p size (bytes 512 0 p reading) small whole 4 0 (whole ∷ [])
          (record { rest = []; listed = refl; placed = tt; apart = tt }) table in
      (
        mbr,
        laid,
        plan9_loop-Extends seprint tokenize strtoull eve stale read size small whole mbr laid
            (length mbr - 1) 0 mbr (omega (arith, ap (λ (l : List Part). length l) laid.listed))
            (record { more = []; listed = sym (append-nil mbr); ends = tt }) last,
      )
