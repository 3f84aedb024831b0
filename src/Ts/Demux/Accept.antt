-- ===== src/Ts/Demux/Accept.antt =====
-- ts/demux.go: a new table, and the outputs, keep the maps of a demultiplexer in agreement.
use mahiron.Prelude.{
  ℕ, ◌+◌, ◌≡◌, refl, sym, ap, ◌∙◌, subst, Bool, true, false, not, ◌&&◌, ◌||◌, Option, none, some,
  inl, inr, Option-cases, if◌then◌else◌, arith,
}
use mahiron.Prelude.Maps.{put}
use mahiron.Prelude.Dict.{Dict, lookup, keep_keys, lookup-keep_keys, NodupKeys}
use mahiron.Ts.Sections.{SectionAssembler}
use mahiron.Ts.Psi.{Pat}
use mahiron.Ts.TableSet.{is_some}
use mahiron.Ts.Demux.{
  DemuxProgram, Demuxer, DemuxServiceOutput, new_demuxer, new_output, rebuild_pat, should_assemble,
  service_output,
}
use mahiron.Ts.Demux.Observe.{by_pid, same_pat, accept_pat}
use mahiron.Ts.Demux.Indexed.{
  pmt_of, IsIndexed, list_all, rebuild_pat_keeps, list_programs_keeps, lookup-list_all, by_pid_lem,
}

with_services-IsIndexed :
    (d : Demuxer) (services : ℕ → Option DemuxServiceOutput)
    → IsIndexed d
    → IsIndexed (record d { services = services })
unfolding should_assemble
with_services-IsIndexed d services c = record {
  assembled = c.assembled;
  indexed = c.indexed;
  listed = c.listed;
}

rebuild_pat-IsIndexed :
    (d : Demuxer) (service_id : ℕ) → IsIndexed d → IsIndexed (rebuild_pat d service_id)
rebuild_pat-IsIndexed d service_id c =
    subst IsIndexed (sym (rebuild_pat_keeps d service_id))
      (with_services-IsIndexed d (rebuild_pat d service_id).services c)

pub service_output-IsIndexed :
    (d : Demuxer) (service_id : ℕ) → IsIndexed d → IsIndexed (service_output d service_id)
unfolding service_output
service_output-IsIndexed d service_id c = elim (Option-cases (d.services service_id)) [
  | inr (output, there) ↦ rw (there, service_output) c
  | inl new ↦
      rw (new, service_output)
        (rebuild_pat-IsIndexed _ service_id
          (with_services-IsIndexed d (put d.services service_id (some new_output)) c))
]

-- What does not depend on the tables.
pub should_assemble_lem :
    (d : Demuxer) (p : ℕ)
    → should_assemble d p
      ≡ (should_assemble new_demuxer p || (is_some (d.pmt_by_pid p) || d.section_pids p))
unfolding should_assemble
should_assemble_lem d p = ground arith

-- An assembler that is not deleted was there, and if its PID was in one set it is in the next.
pub survives :
    (before after : Bool) (o : Option SectionAssembler) (a : SectionAssembler)
    → (if before && not after then none else o) ≡ some a
    → (o ≡ some a) × (before ≡ true → after ≡ true)
survives false after o a h = (h, λ e. cc)
survives true true o a h = (h, λ e. refl)
survives true false o a h = cc

pub stays_of_interest :
    (fixed before after other : Bool)
    → (fixed || (before || other)) ≡ true
    → (before ≡ true → after ≡ true)
    → (fixed || (after || other)) ≡ true
stays_of_interest true before after other h next = refl
stays_of_interest false true after other h next = ground (arith, next refl)
stays_of_interest false false after other h next = ground (arith, h)

lookup-accepted :
    (ps : Dict ℕ) (programs : Dict DemuxProgram) (j : ℕ)
    → NodupKeys ps
    → pmt_of (lookup j (keep_keys (λ k. is_some (lookup k ps)) (list_all ps programs)))
      ≡ lookup j ps
lookup-accepted ps programs j once = ground (
  arith,
  lookup-keep_keys (λ k. is_some (lookup k ps)) j (list_all ps programs),
  lookup-list_all j ps programs once,
)

pub accept_pat-IsIndexed :
    (d : Demuxer) (combined : Pat)
    → NodupKeys combined.programs
    → IsIndexed d
    → IsIndexed (accept_pat d combined)
unfolding accept_pat
accept_pat-IsIndexed d combined once c =
    let ps = combined.programs in
    let unchanged = same_pat d.pat combined in
    let d₁ : Demuxer = record d {
      pat = some combined;
      pat_generation = if unchanged then d.pat_generation else d.pat_generation + 1;
    } in
    let by = by_pid ps (λ p. none) in
    let whole = list_programs_keeps unchanged ps d₁ in
    let listed = λ (j : ℕ).
      ap (λ (x : Demuxer). pmt_of (lookup j (keep_keys (λ k. is_some (lookup k ps)) x.programs)))
        whole
      ∙ lookup-accepted ps d.programs j once in
    record {
      assembled = λ p a h.
          let (there, next) =
            survives (is_some (d.pmt_by_pid p)) (is_some (by p)) (d.assemblers p) a h in
          let (own, before) = c.assembled p a there in
          (
            own,
            should_assemble_lem (accept_pat d combined) p
                ∙ ap
                    (λ (x : Demuxer).
                      should_assemble new_demuxer p || (is_some (by p) || x.section_pids p))
                    whole
                ∙ stays_of_interest (should_assemble new_demuxer p) (is_some (d.pmt_by_pid p))
                    (is_some (by p)) (d.section_pids p) (sym (should_assemble_lem d p) ∙ before)
                    next,
          );
      indexed = λ p service_id h. elim (by_pid_lem ps (λ p. none) p service_id once h) [
        | inl found ↦ listed service_id ∙ found
        | inr nothing ↦ cc
      ];
      listed = λ pat service_id h. listed service_id ∙ cc (ap (λ (x : Demuxer). x.pat) whole);
    }
