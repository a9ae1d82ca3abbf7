-- ===== src/Etherdev/Hub.antt =====
-- Which connections get a packet.
use inferno_kirkwood.Prelude.{
  ℕ, ◌+◌, ◌≡◌, refl, arith, Bool, true, false, not, Option, none, some, List, [], ◌∷◌, ◌&&◌, ◌||◌,
  if◌then◌else◌, u32, Bool-cases, Option-cases, inl, inr, ap, ◌∙◌,
}
use inferno_kirkwood.Etherdev.Netif.{Netfile, Ether, Kernel}
use inferno_kirkwood.Etherdev.Input.{
  Way, wants, Offers, trace_frame, etherrtrace, is_none, offer, offer_all, settle, way_of,
  is_refused, multiplex, etheriq,
}

-- A world that keeps the packets handed to each queue, the latest first, and how many blocks were
-- freed, whose queues have room and which has memory with the contents `old n`.
pub record Log : Type 0 where
  pub passed : List (ℕ × List ℕ)
  pub freed : ℕ

module _ (old : ℕ → List ℕ) where
  unfoldable pub logging : Kernel Log
  logging = record {
    qpass = λ q p w. (true, record w { passed = (q, p) ∷ w.passed });
    qwindow = λ q w. true;
    iallocb = λ n w. (some (old n), w);
    freeb = λ p w. record w { freed = w.freed + 1 };
    qbwrite = λ p w. w;
    transmit = λ w. w;
  }

  -- What a connection that wants the packet gets.
  abbrev pub delivery : (i : ℕ) → List ℕ → Netfile → ℕ × List ℕ
  delivery i pkt f = (f.queue, if f.headersonly then trace_frame i pkt (old 64) else pkt)

  -- What the connections get that want it, each once.
  unfoldable pub deliveries : (i : ℕ) → Way → List ℕ → List (Option Netfile) → List (ℕ × List ℕ)
  deliveries i way pkt [] = []
  deliveries i way pkt (none ∷ fs) = deliveries i way pkt fs
  deliveries i way pkt (some f ∷ fs) =
      let rest = deliveries i way pkt fs in if wants way f then delivery i pkt f ∷ rest else rest

  -- How many of a list meet a test.
  abbrev pub count : (ℕ × List ℕ → Bool) → List (ℕ × List ℕ) → ℕ
  count p [] = 0
  count p (x ∷ xs) = (if p x then 1 else 0) + count p xs

  -- Those handed on so far, and the one that will get the block.
  abbrev pending : (ℕ × List ℕ → Bool) → List ℕ → Option Netfile → ℕ
  pending p pkt none = 0
  pending p pkt (some f) = if p (f.queue, pkt) then 1 else 0

  abbrev total : (ℕ × List ℕ → Bool) → List ℕ → Offers Log → ℕ
  total p pkt o = count p o.world.passed + pending p pkt o.fx

  -- Some connection wants the whole packet.
  unfoldable pub is_wanted : Way → List (Option Netfile) → Bool
  is_wanted way [] = false
  is_wanted way (none ∷ fs) = is_wanted way fs
  is_wanted way (some f ∷ fs) = wants way f && not f.headersonly || is_wanted way fs

  -- A round, or the loop, that deals with the connections `fs`.
  record IsOffered (i : ℕ) (way : Way) (pkt : List ℕ) (fs : List (Option Netfile))
      (o o' : Offers Log) : Type 0 where
    total_lem :
        (p : ℕ × List ℕ → Bool) → total p pkt o' ≡ total p pkt o + count p (deliveries i way pkt fs)
    freed : o'.world.freed ≡ o.world.freed
    soverflows : o'.soverflows ≡ o.soverflows
    fx : is_none logging o'.fx ≡ (is_none logging o.fx && not (way.fromwire && is_wanted way fs))

  offer-total :
      (i : ℕ) (way : Way) (pkt : List ℕ) (f : Netfile) (o : Offers Log) (p : ℕ × List ℕ → Bool)
      → total p pkt (offer logging i way pkt (some f) o)
        ≡ total p pkt o + count p (deliveries i way pkt (some f ∷ []))
  unfolding offer logging etherrtrace deliveries
  offer-total i way pkt f o p = elim (Option-cases o.fx) [
    | inl empty ↦ ground (arith, empty)
    | inr (g, has) ↦ ground (arith, has)
  ]

  offer-IsOffered :
      (i : ℕ) (way : Way) (pkt : List ℕ) (f : Option Netfile) (o : Offers Log)
      → IsOffered i way pkt (f ∷ []) o (offer logging i way pkt f o)
  unfolding offer logging etherrtrace deliveries is_wanted
  offer-IsOffered i way pkt none o = record {
    total_lem = λ p. omega arith;
    freed = refl;
    soverflows = refl;
    fx = ground arith;
  }
  offer-IsOffered i way pkt (some f) o = record {
    total_lem = λ p. offer-total i way pkt f o p;
    freed = ground arith;
    soverflows = ground arith;
    fx = ground arith;
  }

  count-deliveries :
      (i : ℕ) (way : Way) (pkt : List ℕ) (f : Option Netfile) (fs : List (Option Netfile))
      (p : ℕ × List ℕ → Bool)
      → count p (deliveries i way pkt (f ∷ fs))
        ≡ count p (deliveries i way pkt (f ∷ [])) + count p (deliveries i way pkt fs)
  unfolding deliveries
  count-deliveries i way pkt none fs p = omega arith
  count-deliveries i way pkt (some f) fs p = elim (Bool-cases (wants way f)) [
    | inl yes_please ↦ rw yes_please (omega arith)
    | inr no_thanks ↦ rw no_thanks (omega arith)
  ]

  is_wanted-cons :
      (way : Way) (f : Option Netfile) (fs : List (Option Netfile))
      → is_wanted way (f ∷ fs) ≡ (is_wanted way (f ∷ []) || is_wanted way fs)
  unfolding is_wanted
  is_wanted-cons way none fs = refl
  is_wanted-cons way (some f) fs = ground arith

  empty-IsOffered : (i : ℕ) (way : Way) (pkt : List ℕ) (o : Offers Log) → IsOffered i way pkt [] o o
  unfolding deliveries is_wanted
  empty-IsOffered i way pkt o = record {
    total_lem = λ p. omega arith;
    freed = refl;
    soverflows = refl;
    fx = ground arith;
  }

  offer_all-IsOffered :
      (i : ℕ) (way : Way) (pkt : List ℕ) (fs : List (Option Netfile)) (o : Offers Log)
      → IsOffered i way pkt fs o (offer_all logging i way pkt fs o)
  unfolding offer_all
  offer_all-IsOffered i way pkt [] o = empty-IsOffered i way pkt o
  offer_all-IsOffered i way pkt (f ∷ fs) o =
      let o1 = offer logging i way pkt f o in
      let one = offer-IsOffered i way pkt f o in
      let rest = offer_all-IsOffered i way pkt fs o1 in
      record {
        total_lem = λ p.
            omega (arith, one.total_lem p, rest.total_lem p, count-deliveries i way pkt f fs p);
        freed = rest.freed ∙ one.freed;
        soverflows = rest.soverflows ∙ one.soverflows;
        fx = ground (arith, rest.fx, one.fx, is_wanted-cons way f fs);
      }

  -- The packet has gone to the connections that want it: each has been handed its copy once, and
  -- nothing else has been handed on, in whatever order; no overflow is counted. A block that came
  -- from the wire is freed if no connection took it, and is not in use any more; one that is
  -- written is left to the writer.
  pub record IsHub (i : ℕ) (way : Way) (pkt : List ℕ) (e e' : Ether) (w w' : Log)
      (rest : Option (List ℕ)) : Type 0 where
    pub passed :
        (p : ℕ × List ℕ → Bool)
        → count p w'.passed ≡ count p w.passed + count p (deliveries i way pkt e.f)
    pub freed : w'.freed ≡ w.freed + (if way.fromwire && not (is_wanted way e.f) then 1 else 0)
    pub ether : e' ≡ record e { inpackets = u32 (e.inpackets + 1) }
    pub rest_lem : rest ≡ (if way.fromwire then none else some pkt)

  settle-passed :
      (fromwire : Bool) (pkt : List ℕ) (o : Offers Log) (p : ℕ × List ℕ → Bool)
      → count p ((settle logging fromwire pkt o).1.world.passed) ≡ total p pkt o
  unfolding settle logging
  settle-passed fromwire pkt o p = elim (Option-cases o.fx) [
    | inl empty ↦ ground (arith, empty)
    | inr (g, has) ↦ ground (arith, has)
  ]

  settle-freed :
      (fromwire : Bool) (pkt : List ℕ) (o : Offers Log)
      → (settle logging fromwire pkt o).1.world.freed
        ≡ o.world.freed + (if fromwire && is_none logging o.fx then 1 else 0)
  unfolding settle logging
  settle-freed fromwire pkt o = elim (Option-cases o.fx) [
    | inl empty ↦ ground (arith, empty)
    | inr (g, has) ↦ ground (arith, has)
  ]

  settle-soverflows :
      (fromwire : Bool) (pkt : List ℕ) (o : Offers Log)
      → (settle logging fromwire pkt o).1.soverflows ≡ o.soverflows
  unfolding settle logging
  settle-soverflows fromwire pkt o = elim (Option-cases o.fx) [
    | inl empty ↦ ground (arith, empty)
    | inr (g, has) ↦ ground (arith, has)
  ]

  settle-rest :
      (fromwire : Bool) (pkt : List ℕ) (o : Offers Log)
      → (fromwire || is_none logging o.fx) ≡ true
      → (settle logging fromwire pkt o).0 ≡ (if fromwire then none else some pkt)
  unfolding settle
  settle-rest fromwire pkt o h = elim (Option-cases o.fx) [
    | inl empty ↦ ground (arith, empty, h)
    | inr (g, has) ↦ ground (arith, has, h)
  ]

  multiplex-IsHub :
      (i : ℕ) (way : Way) (e e' : Ether) (pkt : List ℕ) (w : Log)
      → e' ≡ record e { inpackets = u32 (e.inpackets + 1) }
      → IsHub i way pkt e
          (multiplex logging i way e' pkt w).1.0
          w
          (multiplex logging i way e' pkt w).1.1
          (multiplex logging i way e' pkt w).0
  unfolding multiplex
  multiplex-IsHub i way e e' pkt w e1 =
      let o : Offers Log = record { fx = none; soverflows = e'.soverflows; world = w } in
      let o1 = offer_all logging i way pkt e'.f o in
      let all = offer_all-IsOffered i way pkt e'.f o in
      let files : e'.f ≡ e.f = ap (λ x. x.f) e1 in
      let same = ap (λ fs. is_wanted way fs) files in
      record {
        passed = λ p.
            settle-passed way.fromwire pkt o1 p
            ∙ all.total_lem p
            ∙ omega (arith, ap (λ fs. count p (deliveries i way pkt fs)) files);
        freed = settle-freed way.fromwire pkt o1 ∙ ground (arith, all.freed, all.fx, same);
        ether =
            ap (λ n. record e' { soverflows = n })
              (settle-soverflows way.fromwire pkt o1 ∙ all.soverflows)
            ∙ e1;
        rest_lem = settle-rest way.fromwire pkt o1 (ground (arith, all.fx));
      }

module _ (old : ℕ → List ℕ) (activemulti : List ℕ → Bool) where
  -- `etheriq` is a hub, while no queue is full and there is memory, for a packet whose address the
  -- interface listens to: every connection that wants the packet gets it once, as a whole
  -- or as a trace, and no other gets it. The block that came from the wire is handed on or
  -- freed, not both.
  pub etheriq-IsHub :
      (i : ℕ) (past : List ℕ) (e : Ether) (pkt : List ℕ) (fromwire : Bool) (w : Log)
      → is_refused activemulti past e pkt ≡ false
      → IsHub old i
          (way_of e past pkt fromwire)
          pkt
          e
          (etheriq (logging old) activemulti i past e pkt fromwire w).1.0
          w
          (etheriq (logging old) activemulti i past e pkt fromwire w).1.1
          (etheriq (logging old) activemulti i past e pkt fromwire w).0
  unfolding etheriq way_of
  etheriq-IsHub i past e pkt fromwire w listened =
      rw (listened, etheriq)
        (multiplex-IsHub old i (way_of e past pkt fromwire) e
          (record e { inpackets = u32 (e.inpackets + 1) }) pkt w refl)
