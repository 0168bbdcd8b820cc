-- ===== src/Transition/Attest/Finality.antt =====
-- When attestations finalize a checkpoint.
use gean.Base.{
  ℕ, zero, suc, ◌+◌, ◌-◌, ◌≤◌, ◌<◌, ◌≡◌, refl, ◌⊎◌, List, true, false, inl, inr, arith, Bool-cases,
  ◌==◌,
}
use gean.Types.Containers.{Checkpoint, Attestation, State, Primitives}
use gean.Types.Slot.{is_justifiable_after}
use gean.Transition.Bitlist.{get_bit}
use gean.Transition.Valid.{IsValid}
use gean.Transition.Attest.{
  Tally, has_gap, record_vote, justify, initial_tally, process_attestations,
}
use gean.Transition.Attest.Steps.{Counts, Step, ignored, voted, justified, loop_induction}
use gean.Transition.Attest.Keeps.{TallyValid, Step-TallyValid, get_bit-justify, initial-TallyValid}

-- The scan for a justifiable slot is exact.
has_gap-false :
    (p : Primitives) (k from original : ℕ)
    → has_gap p k from original ≡ false
    → (j : ℕ) → from ≤ j
    → j < from + k
    → is_justifiable_after p.float_sqrt j original ≡ false
unfolding has_gap
has_gap-false p zero from original h j a b = absurd (omega arith)
has_gap-false p (suc k) from original h j a b = elim (Bool-cases (from == j)) [
  | inl e ↦ let at : from ≡ j = ground arith in rw (← at) (ground arith)
  | inr e ↦ has_gap-false p k (suc from) original (ground arith) j (ground arith) (omega arith)
]

-- The checkpoint's slot is justified together with a later justifiable slot, and no slot that lies
-- strictly between the two could have been justified.
pub record Finalizes (p : Primitives) (original : ℕ) (bits : List ℕ) (c : Checkpoint) : Type 0 where
  pub target : ℕ
  pub later : c.slot < target
  pub source_justified : get_bit bits c.slot ≡ true
  pub target_justified : get_bit bits target ≡ true
  pub target_justifiable : is_justifiable_after p.float_sqrt target original ≡ true
  pub no_gap :
      (j : ℕ) → c.slot < j → j < target → is_justifiable_after p.float_sqrt j original ≡ false

module _ (p : Primitives) (n : ℕ) (s : State) where
  abbrev original : ℕ
  original = s.latest_finalized.slot

  record Final (t : Tally) : Type 0 where
    valid : TallyValid n s t
    evidence :
        (t.latest_finalized ≡ s.latest_finalized)
        ⊎ Finalizes p original t.justified_slots t.latest_finalized

  module _ (t : Tally) (a : Attestation) (f : Final t) (c : Counts p s t a) where
    abbrev bits : List ℕ
    bits = (justify p s t a).justified_slots

    keeps_evidence :
        (d : Checkpoint) → Finalizes p original t.justified_slots d → Finalizes p original bits d
    keeps_evidence d e = record {
      target = e.target;
      later = e.later;
      source_justified =
          ground (arith, get_bit-justify p n s t a f.valid c d.slot, e.source_justified);
      target_justified =
          ground (arith, get_bit-justify p n s t a f.valid c e.target, e.target_justified);
      target_justifiable = e.target_justifiable;
      no_gap = e.no_gap;
    }

    abbrev source : Checkpoint
    source = a.att_data.source

    abbrev target_slot : ℕ
    target_slot = a.att_data.target.slot

    new_evidence :
        has_gap p (target_slot - suc source.slot) (suc source.slot) original ≡ false
        → Finalizes p original bits (record { root = source.root; slot = source.slot })
    new_evidence e = record {
      target = target_slot;
      later = c.later;
      source_justified =
          ground (arith, get_bit-justify p n s t a f.valid c source.slot, c.source_marked);
      target_justified = ground (arith, get_bit-justify p n s t a f.valid c target_slot);
      target_justifiable = c.justifiable;
      no_gap = λ j lo hi.
          has_gap-false p (target_slot - suc source.slot) (suc source.slot) original e j lo
            (omega (arith, c.later));
    }

    justify_evidence :
        ((justify p s t a).latest_finalized ≡ s.latest_finalized)
        ⊎ Finalizes p original bits (justify p s t a).latest_finalized
    unfolding justify
    justify_evidence =
        elim (Bool-cases (has_gap p (target_slot - suc source.slot) (suc source.slot) original)) [
          | inl e ↦ rw e (kept f.evidence)
          | inr e ↦ rw e (inr (new_evidence e))
        ]
      where
        kept :
            (t.latest_finalized ≡ s.latest_finalized)
              ⊎ Finalizes p original t.justified_slots t.latest_finalized
            → (t.latest_finalized ≡ s.latest_finalized)
              ⊎ Finalizes p original (justify p s t a).justified_slots t.latest_finalized
        kept (inl same) = inl same
        kept (inr e) = inr (keeps_evidence t.latest_finalized e)

  Step-Final : (t : Tally) (a : Attestation) (u : Tally) → Step p s t a u → Final t → Final u
  unfolding record_vote
  Step-Final t a u (ignored e) f = f
  Step-Final t a u (voted c few) f = record {
    valid = Step-TallyValid p n s t a _ (voted c few) f.valid;
    evidence = f.evidence;
  }
  Step-Final t a u (justified c many) f = record {
    valid = Step-TallyValid p n s t a _ (justified c many) f.valid;
    evidence = justify_evidence t a f c;
  }

initial_finalized :
    (p : Primitives) (s : State) → (initial_tally p s).latest_finalized ≡ s.latest_finalized
unfolding initial_tally
initial_finalized p s = refl

-- On a valid state with a header above genesis, if processing attestations changes the finalized
-- checkpoint, the new one's slot is justified, and so is a later slot that is justifiable after the
-- old finalized slot, with no justifiable slot strictly between the two.
pub process_attestations_finality :
    (p : Primitives) (s : State) (atts : List Attestation)
    → IsValid s
    → 0 < s.latest_block_header.slot
    → ((process_attestations p s atts).latest_finalized ≡ s.latest_finalized)
      ⊎ Finalizes p s.latest_finalized.slot
          (process_attestations p s atts).justified_slots
          (process_attestations p s atts).latest_finalized
unfolding process_attestations
process_attestations_finality p s atts v h =
    let n = s.latest_block_header.slot in
    (loop_induction p s (Final p n s) (Step-Final p n s) (initial_tally p s) atts start).evidence
  where
    start : Final p s.latest_block_header.slot s (initial_tally p s)
    start = record { valid = initial-TallyValid p s v h; evidence = inl (initial_finalized p s) }
