-- ===== src/Bs/Finding.antt =====
-- What is found in the table and in a store, and what is found after a change there.
use inferno_kirkwood.Prelude.{
  ℕ, ◌^◌, ◌≡◌, refl, ap, ◌∙◌, inl, inr, true, Option, none, some, List, ◌&&◌, ltb, leb, get_elem?,
  get_elem?-lt, get_elem?-set_self, set-set, set-get_elem?, Bool-cases, Option-cases,
}
use inferno_kirkwood.Port.{ok}
use inferno_kirkwood.Part.{Part}
use inferno_kirkwood.Bs.Defs.{Store, Bs}
use inferno_kirkwood.Bs.Table.{diskget}
use inferno_kirkwood.Bs.Disk.{disk_of, put_store, partget, xpartget}
use inferno_kirkwood.Bs.Open.{set_part}

-- `d` is the store with number `n`.
pub record IsAt (bs : Bs) (n : ℕ) (d : Store) : Type 0 where
  pub inside : (ltb n (2 ^ 31) && leb n bs.maxdisk) ≡ true
  pub listed : get_elem? bs.disks n ≡ some (some d)

pub disk_of-ok : (bs : Bs) (n : ℕ) {d : Store} → IsAt bs n d → disk_of bs n ≡ ok d
unfolding disk_of diskget
disk_of-ok bs n at = rw (at.inside, at.listed) refl

pub disk_of-IsAt : (bs : Bs) (n : ℕ) {d : Store} → disk_of bs n ≡ ok d → IsAt bs n d
unfolding disk_of diskget
disk_of-IsAt bs n {d} e = elim (Bool-cases (ltb n (2 ^ 31) && leb n bs.maxdisk)) [
  | inl inside ↦ elim (Option-cases (get_elem? bs.disks n)) [
    | inl absent ↦ absurd (let h = rw (inside, absent) at e in cc)
    | inr (none, nil) ↦ absurd (let h = rw (inside, nil) at e in cc)
    | inr (some found, listed) ↦ record {
      inside = inside;
      listed =
          let h : ok found ≡ ok d = rw (inside, listed) at e in
          listed ∙ ap (λ x. some (some x)) (let same : found ≡ d = cc in same);
    }
  ]
  | inr outside ↦ absurd (let h = rw outside at e in cc)
]

pub put_store-IsAt :
    (bs : Bs) (n : ℕ) (d : Store) {old : Store} → IsAt bs n old → IsAt (put_store bs n d) n d
unfolding put_store
put_store-IsAt bs n d at = record {
  inside = at.inside;
  listed = get_elem?-set_self bs.disks n (some d) (get_elem?-lt bs.disks n at.listed);
}

pub put_store-restore :
    (bs : Bs) (n : ℕ) (d d' : Store) → IsAt bs n d → put_store (put_store bs n d') n d ≡ bs
unfolding put_store
put_store-restore bs n d d' at =
    ap (λ (disks : List (Option Store)). record { disks = disks; maxdisk = bs.maxdisk })
      (set-set bs.disks n (some d') (some d) ∙ set-get_elem? bs.disks n at.listed)

-- `p` is partition `i` of a ready store.
pub record HasPart (d : Store) (i : ℕ) (p : Part) : Type 0 where
  pub ready : d.ready ≡ true
  pub listed : get_elem? d.parts i ≡ some p

pub xpartget-ok : (d : Store) (i : ℕ) {p : Part} → HasPart d i p → xpartget d i ≡ ok p
unfolding xpartget partget
xpartget-ok d i h = rw (h.ready, h.listed) refl

pub xpartget-HasPart : (d : Store) (i : ℕ) {p : Part} → xpartget d i ≡ ok p → HasPart d i p
unfolding xpartget partget
xpartget-HasPart d i {p} e = elim (Bool-cases d.ready) [
  | inl ready ↦ elim (Option-cases (get_elem? d.parts i)) [
    | inl absent ↦ absurd (let h = rw (ready, absent) at e in cc)
    | inr (found, listed) ↦ record {
      ready = ready;
      listed =
          let h : ok found ≡ ok p = rw (ready, listed) at e in
          listed ∙ ap some (let same : found ≡ p = cc in same);
    }
  ]
  | inr idle ↦ absurd (let h = rw idle at e in cc)
]

pub set_part-HasPart :
    (d : Store) (i : ℕ) (p : Part) {old : Part} → HasPart d i old → HasPart (set_part d i p) i p
unfolding set_part
set_part-HasPart d i p h = record {
  ready = h.ready;
  listed = get_elem?-set_self d.parts i p (get_elem?-lt d.parts i h.listed);
}

pub set_part-restore :
    (d : Store) (i : ℕ) (p p' : Part) → HasPart d i p → set_part (set_part d i p') i p ≡ d
unfolding set_part
set_part-restore d i p p' h =
    ap (λ (parts : List Part). record d { parts = parts })
      (set-set d.parts i p' p ∙ set-get_elem? d.parts i h.listed)
