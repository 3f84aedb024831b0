-- ===== src/Ts/Demux/Reach.antt =====
-- ts/demux.go: the maps of a demultiplexer agree in every state that packets and views lead to.
use mahiron.Prelude.{
  ℕ, ◌≡◌, refl, sym, ap, ◌∙◌, subst, Bool, true, false, not, ◌||◌, Option, none, some, List, [],
  ◌∷◌, ◌==◌, ==→eq, ltb, length, inl, inr, Bool-cases, Option-cases, if◌then◌else◌, arith,
}
use mahiron.Prelude.Maps.{put}
use mahiron.Prelude.Dict.{Dict, lookup, insert, lookup-insert}
use mahiron.Ts.{Packet, pid}
use mahiron.Ts.Sections.{
  Section, total_length, validate_crc, SectionAssembler, new_section_assembler, feed_all,
}
use mahiron.Ts.Sections.Own.{feed_all-pid}
use mahiron.Ts.Psi.{parse_pmt, table_id}
use mahiron.Ts.TableSet.{TableSectionSet, is_some, add_section, ordered}
use mahiron.Ts.Demux.{
  DemuxProgram, Demuxer, new_demuxer, should_assemble, service_output, is_usable,
}
use mahiron.Ts.Demux.Observe.{
  empty_pat, combine, observe_pat, observe_cat, observe_pmt, observe, observe_all, feed_with_pid,
  emm_of, rebuild_section_pids, any_section_pid,
}
use mahiron.Ts.Demux.Indexed.{pmt_of, IsIndexed, ListsOnce, combine-ListsOnce}
use mahiron.Ts.Demux.Accept.{
  service_output-IsIndexed, should_assemble_lem, survives, accept_pat-IsIndexed,
}

after_reset :
    (d : Demuxer) (set : TableSectionSet) (resets : Bool)
    → IsIndexed d
    → IsIndexed (record d { pat_sections = set; pat = if resets then none else d.pat })
unfolding should_assemble
after_reset d set true c = record {
  assembled = c.assembled;
  indexed = c.indexed;
  listed = λ pat service_id h. cc;
}
after_reset d set false c = record {
  assembled = c.assembled;
  indexed = c.indexed;
  listed = c.listed;
}

still_of_interest :
    (fixed other before after : Bool)
    → (fixed || (other || before)) ≡ true
    → (before ≡ true → after ≡ true)
    → (fixed || (other || after)) ≡ true
still_of_interest true other before after h next = refl
still_of_interest false true before after h next = refl
still_of_interest false false before after h next = next h

observe_pat-IsIndexed : (d : Demuxer) (s : Section) → IsIndexed d → IsIndexed (observe_pat d s)
unfolding observe_pat
observe_pat-IsIndexed d s c =
    let (resets, ready, set) = add_section d.pat_sections s in
    let d' : Demuxer = record d { pat_sections = set; pat = if resets then none else d.pat } in
    let c' = after_reset d set resets c in
    elim (Bool-cases ready) [
      | inr part ↦ rw (part, observe_pat) c'
      | inl whole ↦ elim (Option-cases (combine empty_pat (ordered set))) [
        | inl invalid ↦ rw (whole, invalid, observe_pat) c'
        | inr (combined, found) ↦
            let once = subst ListsOnce found (combine-ListsOnce (ordered set) empty_pat tt) in
            rw (whole, found, observe_pat) (accept_pat-IsIndexed d' combined once c')
      ]
    ]

with_cat-IsIndexed :
    (d : Demuxer) (set : TableSectionSet) (emm : ℕ → Bool)
    → IsIndexed d
    → IsIndexed (record d { cat_sections = set; cat_emm = emm })
unfolding should_assemble
with_cat-IsIndexed d set emm c = record {
  assembled = c.assembled;
  indexed = c.indexed;
  listed = c.listed;
}

observe_cat-IsIndexed : (d : Demuxer) (s : Section) → IsIndexed d → IsIndexed (observe_cat d s)
unfolding observe_cat
observe_cat-IsIndexed d s c =
    let (_, ready, set) = add_section d.cat_sections s in
    let invalid = ltb (length s) 12 || ltb (length s) (total_length s) || not (validate_crc s) in
    elim (Bool-cases invalid) [
      | inl bad ↦ rw (bad, observe_cat) c
      | inr good ↦ elim (Bool-cases ready) [
        | inl whole ↦
            rw (good, whole, observe_cat)
              (with_cat-IsIndexed d set (emm_of (ordered set) (λ p. false)) c)
        | inr part ↦ rw (good, part, observe_cat) (with_cat-IsIndexed d set d.cat_emm c)
      ]
    ]

rebuild_section_pids-IsIndexed : (d : Demuxer) → IsIndexed d → IsIndexed (rebuild_section_pids d)
unfolding rebuild_section_pids
rebuild_section_pids-IsIndexed d c = record {
  assembled = λ p a h.
      let any = any_section_pid d.programs p in
      let (there, next) = survives (d.section_pids p) any (d.assemblers p) a h in
      let (own, before) = c.assembled p a there in
      (
        own,
        should_assemble_lem (rebuild_section_pids d) p
            ∙ still_of_interest (should_assemble new_demuxer p) (is_some (d.pmt_by_pid p))
                (d.section_pids p) any (sym (should_assemble_lem d p) ∙ before) next,
      );
  indexed = c.indexed;
  listed = c.listed;
}

lookup-observed :
    (service_id j : ℕ) (program program' : DemuxProgram) (programs : Dict DemuxProgram)
    → lookup service_id programs ≡ some program
    → program'.pmt_pid ≡ program.pmt_pid
    → pmt_of (lookup j (insert service_id program' programs)) ≡ pmt_of (lookup j programs)
lookup-observed service_id j program program' programs found same =
    ground (arith, lookup-insert j service_id program' programs, found, same)

with_program-IsIndexed :
    (d : Demuxer) (service_id : ℕ) (program program' : DemuxProgram)
    → lookup service_id d.programs ≡ some program
    → program'.pmt_pid ≡ program.pmt_pid
    → IsIndexed d
    → IsIndexed (record d { programs = insert service_id program' d.programs })
unfolding should_assemble
with_program-IsIndexed d service_id program program' found same c =
    let kept = λ (j : ℕ). lookup-observed service_id j program program' d.programs found same in
    record {
      assembled = c.assembled;
      indexed = λ p j h. kept j ∙ c.indexed p j h;
      listed = λ pat j h. kept j ∙ c.listed pat j h;
    }

observe_pmt-IsIndexed :
    (d : Demuxer) (service_id : ℕ) (s : Section)
    → IsIndexed d
    → IsIndexed (observe_pmt d service_id s)
unfolding observe_pmt
observe_pmt-IsIndexed d service_id s c = elim (Option-cases (parse_pmt s)) [
  | inl invalid ↦ rw (invalid, observe_pmt) c
  | inr (pmt, valid) ↦ elim (Option-cases (lookup service_id d.programs)) [
    | inl absent ↦ rw (valid, absent, observe_pmt) c
    | inr (program, found) ↦ elim (Bool-cases (not (pmt.program_number == service_id))) [
      | inl other ↦ rw (valid, found, other, observe_pmt) c
      | inr own ↦
          rw (valid, found, own, observe_pmt)
            (rebuild_section_pids-IsIndexed _
              (with_program-IsIndexed d service_id program _ found refl c))
    ]
  ]
]

if_IsIndexed :
    (b : Bool) (x y : Demuxer) → IsIndexed x → IsIndexed y → IsIndexed (if b then x else y)
if_IsIndexed true x y p q = p
if_IsIndexed false x y p q = q

of_service-IsIndexed :
    (d : Demuxer) (found : Option ℕ) (s : Section)
    → IsIndexed d
    → IsIndexed (elim found [ none ↦ d | some service_id ↦ observe_pmt d service_id s ])
of_service-IsIndexed d none s c = c
of_service-IsIndexed d (some service_id) s c = observe_pmt-IsIndexed d service_id s c

observe-IsIndexed : (d : Demuxer) (p : ℕ) (s : Section) → IsIndexed d → IsIndexed (observe d p s)
unfolding observe
observe-IsIndexed d p s c =
    if_IsIndexed (table_id s == 0) _ _ (if_IsIndexed (p == 0) _ _ (observe_pat-IsIndexed d s c) c) (
      if_IsIndexed (table_id s == 1) _ _ (if_IsIndexed (p == 1) _ _ (observe_cat-IsIndexed d s c) c)
        (if_IsIndexed (table_id s == 2) _ _ (of_service-IsIndexed d (d.pmt_by_pid p) s c) c))

observe_all-IsIndexed :
    (ss : List Section) (d : Demuxer) (p : ℕ) → IsIndexed d → IsIndexed (observe_all d p ss)
unfolding observe_all
observe_all-IsIndexed [] d p c = c
observe_all-IsIndexed (s ∷ ss) d p c =
    observe_all-IsIndexed ss (observe d p s) p (observe-IsIndexed d p s c)

with_assembler-IsIndexed :
    (d : Demuxer) (p : ℕ) (a : SectionAssembler)
    → a.pid ≡ p
    → should_assemble d p ≡ true
    → IsIndexed d
    → IsIndexed (record d { assemblers = put d.assemblers p (some a) })
unfolding should_assemble
with_assembler-IsIndexed d p a own interest c = record {
  assembled = λ j b h. elim (Bool-cases (p == j)) [
    | inl here ↦
        let same = ==→eq p j here in
        let it : a ≡ b = ground (arith, h, here) in
        (
          ap (λ (x : SectionAssembler). x.pid) (sym it) ∙ own ∙ same,
          ap (should_assemble d) (sym same) ∙ interest,
        )
    | inr away ↦ c.assembled j b (ground (arith, h, away))
  ];
  indexed = c.indexed;
  listed = c.listed;
}

neither : (a b : Bool) → (not a || not b) ≡ false → b ≡ true
neither a true h = refl
neither true false h = cc
neither false false h = cc

assembler-pid :
    (d : Demuxer) (p : ℕ)
    → IsIndexed d
    → (let assembler : SectionAssembler = elim (d.assemblers p) [
      | none ↦ new_section_assembler p
      | some assembler ↦ assembler
    ] in
        assembler.pid ≡ p)
assembler-pid d p c = elim (Option-cases (d.assemblers p)) [
  | inl new ↦ rw new refl
  | inr (a, there) ↦ rw there (c.assembled p a there).0
]

feed_with_pid-IsIndexed :
    (d : Demuxer) (packet : Packet) → IsIndexed d → IsIndexed (feed_with_pid d packet).1
unfolding feed_with_pid
feed_with_pid-IsIndexed d packet c =
    let p = pid packet in
    let assembler : SectionAssembler = elim (d.assemblers p) [
      | none ↦ new_section_assembler p
      | some assembler ↦ assembler
    ] in
    let skips = not (is_usable packet) || not (should_assemble d p) in
    elim (Bool-cases skips) [
      | inl skipped ↦ rw (skipped, feed_with_pid) c
      | inr fed ↦
          let own = feed_all-pid assembler packet ∙ assembler-pid d p c in
          rw (fed, feed_with_pid)
            (observe_all-IsIndexed (feed_all assembler packet).0 _ p (
              with_assembler-IsIndexed d p (feed_all assembler packet).1 own
                (neither (is_usable packet) (should_assemble d p) fed) c))
    ]

-- What packets and views lead to.
pub data Reachable : Demuxer → Type 0 where
  begins : Reachable new_demuxer
  feeds : (d : Demuxer) (packet : Packet) → Reachable d → Reachable (feed_with_pid d packet).1
  views : (d : Demuxer) (service_id : ℕ) → Reachable d → Reachable (service_output d service_id)

new_demuxer-IsIndexed : IsIndexed new_demuxer
new_demuxer-IsIndexed = record {
  assembled = λ p a h. cc;
  indexed = λ p s h. cc;
  listed = λ pat s h. cc;
}

-- In every state that packets and views lead to: only PIDs of interest have an assembler, and it is
-- theirs; each PMT PID leads to a service whose program has it; and while the table is known, the
-- programs are just those it lists, with their PMT PIDs.
pub Reachable-IsIndexed : {d : Demuxer} → Reachable d → IsIndexed d
Reachable-IsIndexed begins = new_demuxer-IsIndexed
Reachable-IsIndexed (feeds d packet r) = feed_with_pid-IsIndexed d packet (Reachable-IsIndexed r)
Reachable-IsIndexed (views d service_id r) =
    service_output-IsIndexed d service_id (Reachable-IsIndexed r)
