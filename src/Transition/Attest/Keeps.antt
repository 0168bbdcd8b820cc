-- ===== src/Transition/Attest/Keeps.antt =====
-- What the attestations keep: the invariant of the state, and every justified slot.
use gean.Base.{
  ℕ, zero, suc, ◌-◌, ◌<◌, ◌≡◌, refl, List, Bool, true, false, inl, inr, arith, leb, ◌==◌,
  Bool-cases, if◌then◌else◌,
}
use gean.Types.Containers.{Checkpoint, Attestation, State, Primitives}
use gean.Transition.Bitlist.{bitlist_len, get_bit, set_bit}
use gean.Transition.Bitlist.Laws.{IsBitlist, bitlist_len-IsBitlist}
use gean.Transition.Bitlist.Append.{get_bit-set_bit, set_bit-IsBitlist}
use gean.Transition.Header.{Trail}
use gean.Transition.Header.Fill.{Covers}
use gean.Transition.Valid.{Anchored, IsValid}
use gean.Transition.Attest.{
  Tally, extend_to, has_gap, record_vote, justify, attestations_loop, initial_tally,
  process_attestations,
}
use gean.Transition.Attest.Steps.{Counts, Step, ignored, voted, justified, loop_induction}

abbrev pub tally_trail : State → Tally → Trail
tally_trail s t = record { hashes = s.historical_block_hashes; bits = t.justified_slots }

pub record TallyValid (n : ℕ) (s : State) (t : Tally) : Type 0 where
  pub covers : Covers n (tally_trail s t)
  pub anchored_justified : Anchored n (tally_trail s t) t.latest_justified
  pub anchored_finalized : Anchored n (tally_trail s t) t.latest_finalized

-- The target lies in the history, which the bits cover: the loop that extends them adds nothing.
extend_to_covered :
    (k n : ℕ) (bits : List ℕ) (slot : ℕ)
    → IsBitlist n bits
    → slot < n
    → extend_to k bits slot ≡ bits
unfolding extend_to
extend_to_covered zero n bits slot v h = refl
extend_to_covered (suc k) n bits slot v h =
    let e : leb (bitlist_len bits) slot ≡ false = ground (arith, bitlist_len-IsBitlist n bits v) in
    rw e (extend_to_covered k n bits slot v h)

module _ (p : Primitives) (n : ℕ) (s : State) (t : Tally) (a : Attestation)
    (valid : TallyValid n s t) (c : Counts p s t a) where
  abbrev source : Checkpoint
  source = a.att_data.source

  abbrev target : Checkpoint
  target = a.att_data.target

  target_within : target.slot < n
  target_within = omega (arith, c.target_in_history, valid.covers.hashes_length)

  pub justify_bits : (justify p s t a).justified_slots ≡ set_bit t.justified_slots target.slot true
  unfolding justify
  justify_bits = rw (
      extend_to_covered (suc target.slot) n t.justified_slots target.slot valid.covers.bits_valid
        target_within)

  pub get_bit-justify :
      (j : ℕ)
      → get_bit (justify p s t a).justified_slots j
        ≡ (if target.slot == j then true else get_bit t.justified_slots j)
  get_bit-justify j =
      rw justify_bits (
        get_bit-set_bit n t.justified_slots target.slot true valid.covers.bits_valid target_within
          j)

  keeps_anchor :
      (d : Checkpoint)
      → Anchored n (tally_trail s t) d
      → Anchored n (tally_trail s (justify p s t a)) d
  keeps_anchor d h = record {
    within = h.within;
    marked = ground (arith, get_bit-justify d.slot, h.marked);
    recorded = h.recorded;
  }

  target-Anchored :
      Anchored n
        (tally_trail s (justify p s t a))
        (record { root = target.root; slot = target.slot })
  target-Anchored = record {
    within = target_within;
    marked = ground (arith, get_bit-justify target.slot);
    recorded = c.target_known;
  }

  source-Anchored : Anchored n (tally_trail s t) (record { root = source.root; slot = source.slot })
  source-Anchored = record {
    within = omega (arith, c.later, target_within);
    marked = c.source_marked;
    recorded = c.source_known;
  }

  abbrev gap : Bool
  gap = has_gap p (target.slot - suc source.slot) (suc source.slot) s.latest_finalized.slot

  finalized-Anchored :
      Anchored n (tally_trail s (justify p s t a)) (justify p s t a).latest_finalized
  unfolding justify
  finalized-Anchored = elim (Bool-cases gap) [
    | inl e ↦ rw e (keeps_anchor t.latest_finalized valid.anchored_finalized)
    | inr e ↦ rw e (keeps_anchor _ source-Anchored)
  ]

  justified-Anchored :
      Anchored n (tally_trail s (justify p s t a)) (justify p s t a).latest_justified
  unfolding justify
  justified-Anchored = target-Anchored

  justify-TallyValid : TallyValid n s (justify p s t a)
  justify-TallyValid = record {
    covers = record {
      hashes_length = valid.covers.hashes_length;
      bits_valid = rw justify_bits (
          set_bit-IsBitlist n t.justified_slots target.slot true valid.covers.bits_valid
            target_within);
    };
    anchored_justified = justified-Anchored;
    anchored_finalized = finalized-Anchored;
  }

pub Step-TallyValid :
    (p : Primitives) (n : ℕ) (s : State) (t : Tally) (a : Attestation) (u : Tally)
    → Step p s t a u
    → TallyValid n s t
    → TallyValid n s u
unfolding record_vote
Step-TallyValid p n s t a u (ignored e) valid = valid
Step-TallyValid p n s t a u (voted c few) valid = record {
  covers = valid.covers;
  anchored_justified = valid.anchored_justified;
  anchored_finalized = valid.anchored_finalized;
}
Step-TallyValid p n s t a u (justified c many) valid = justify-TallyValid p n s t a valid c

pub loop-TallyValid :
    (p : Primitives) (n : ℕ) (s : State) (t : Tally) (atts : List Attestation)
    → TallyValid n s t
    → TallyValid n s (attestations_loop p s t atts)
loop-TallyValid p n s =
    loop_induction p s (TallyValid n s) (λ t a u st. Step-TallyValid p n s t a u st)

pub initial-TallyValid :
    (p : Primitives) (s : State)
    → IsValid s
    → 0 < s.latest_block_header.slot
    → TallyValid s.latest_block_header.slot s (initial_tally p s)
unfolding initial_tally
initial-TallyValid p s v h = record {
  covers = v.covers;
  anchored_justified = v.justified h;
  anchored_finalized = v.finalized h;
}

-- Whatever attestations a block carries, a valid state with a header above genesis stays valid: its
-- justified and finalized checkpoints are justified blocks of its history.
pub process_attestations-IsValid :
    (p : Primitives) (s : State) (atts : List Attestation)
    → IsValid s
    → 0 < s.latest_block_header.slot
    → IsValid (process_attestations p s atts)
unfolding process_attestations
process_attestations-IsValid p s atts v h =
    let n = s.latest_block_header.slot in
    let w = loop-TallyValid p n s (initial_tally p s) atts (initial-TallyValid p s v h) in
    record {
      covers = w.covers;
      header_le = v.header_le;
      genesis = λ e. absurd (omega arith);
      justified = λ _. w.anchored_justified;
      finalized = λ _. w.anchored_finalized;
    }

initial_bits :
    (p : Primitives) (s : State) (j : ℕ)
    → get_bit s.justified_slots j ≡ true
    → get_bit (initial_tally p s).justified_slots j ≡ true
unfolding initial_tally
initial_bits p s j e = e

-- A valid tally in which every slot of `bits` that is justified still is.
record Monotone (n : ℕ) (s : State) (bits : List ℕ) (t : Tally) : Type 0 where
  valid : TallyValid n s t
  kept : (j : ℕ) → get_bit bits j ≡ true → get_bit t.justified_slots j ≡ true

Step-Monotone :
    (p : Primitives) (n : ℕ) (s : State) (bits : List ℕ) (t : Tally) (a : Attestation) (u : Tally)
    → Step p s t a u
    → Monotone n s bits t
    → Monotone n s bits u
unfolding record_vote
Step-Monotone p n s bits t a u (ignored e) m = m
Step-Monotone p n s bits t a u (voted c few) m = record {
  valid = Step-TallyValid p n s t a _ (voted c few) m.valid;
  kept = m.kept;
}
Step-Monotone p n s bits t a u (justified c many) m = record {
  valid = justify-TallyValid p n s t a m.valid c;
  kept = λ j e. ground (arith, get_bit-justify p n s t a m.valid c j, m.kept j);
}

-- On a valid state with a header above genesis, a justified slot stays justified, whatever
-- attestations a block carries.
pub process_attestations_monotone :
    (p : Primitives) (s : State) (atts : List Attestation)
    → IsValid s
    → 0 < s.latest_block_header.slot
    → (j : ℕ) → get_bit s.justified_slots j ≡ true
    → get_bit (process_attestations p s atts).justified_slots j ≡ true
unfolding process_attestations
process_attestations_monotone p s atts v h =
    let n = s.latest_block_header.slot in
    let start : Monotone n s s.justified_slots (initial_tally p s) = record {
      valid = initial-TallyValid p s v h;
      kept = initial_bits p s;
    } in
    (loop_induction p s (Monotone n s s.justified_slots)
      (λ t a u st. Step-Monotone p n s s.justified_slots t a u st) (initial_tally p s) atts
      start).kept
