-- ===== src/Ts/Demux/Observe.antt =====
-- ts/demux.go: what a demultiplexer learns from the sections of its packets.
use mahiron.Prelude.{
  ℕ, ◌+◌, ◌-◌, Bool, true, false, not, ◌&&◌, ◌||◌, Option, none, some, List, [], ◌∷◌, ltb, ◌==◌,
  if◌then◌else◌, length,
}
use mahiron.Prelude.Maps.{put}
use mahiron.Prelude.Dict.{Dict, lookup, insert, keep_keys}
use mahiron.Ts.{Packet, pid}
use mahiron.Ts.Sections.{
  Section, total_length, validate_crc, SectionAssembler, new_section_assembler, feed_all,
}
use mahiron.Ts.Psi.{
  slice, table_id, Descriptor, tag, data_of, parse_descriptors, pid_at, Pat, parse_pat, Pmt,
  PmtElement, parse_pmt,
}
use mahiron.Ts.TableSet.{is_some, add_section, ordered}
use mahiron.Ts.Demux.{DemuxProgram, Demuxer, rebuild_pat, should_assemble, is_usable}

-- The entries of `more` over those of `programs`.
abbrev pub insert_all : Dict ℕ → Dict ℕ → Dict ℕ
insert_all programs [] = programs
insert_all programs ((service_id, pmt_pid) ∷ more) =
    insert_all (insert service_id pmt_pid programs) more

-- The table of all sections, unless one of them is invalid.
unfoldable pub combine : Pat → List Section → Option Pat
unfolding parse_pat
combine combined [] = some combined
combine combined (section ∷ sections) = elim (parse_pat section) [
  | none ↦ none
  | some pat ↦
      combine (record pat { programs = insert_all combined.programs pat.programs }) sections
]

abbrev pub empty_pat : Pat
empty_pat = record { transport_stream_id = 0; version_number = 0; network_pid = 0; programs = [] }

-- `b.Programs[serviceID] != pmtPID` for none; a missing key reads as 0.
abbrev pub all_in : Dict ℕ → Dict ℕ → Bool
all_in [] b = true
all_in ((service_id, pmt_pid) ∷ a) b =
    elim (lookup service_id b) [ none ↦ 0 == pmt_pid | some found ↦ found == pmt_pid ] && all_in a b

unfoldable pub same_pat : Option Pat → Pat → Bool
same_pat none b = false
same_pat (some a) b =
    a.transport_stream_id == b.transport_stream_id
    && a.version_number == b.version_number
    && a.network_pid == b.network_pid
    && length a.programs == length b.programs
    && all_in a.programs b.programs

abbrev pub new_program : ℕ → DemuxProgram
new_program pmt_pid = record { pmt_pid = pmt_pid; pids = λ p. false; section_pids = λ p. false }

-- `d.programs[serviceID]` of a service that the table lists.
abbrev pub list_program : ℕ → ℕ → Dict DemuxProgram → Dict DemuxProgram
list_program service_id pmt_pid programs =
    if elim (lookup service_id programs) [
      | none ↦ true
      | some program ↦ not (program.pmt_pid == pmt_pid)
    ]
    then insert service_id (new_program pmt_pid) programs
    else programs

-- The loop of `observePAT` over the services of the table.
unfoldable pub list_programs : Bool → Dict ℕ → Demuxer → Demuxer
unfolding rebuild_pat
list_programs unchanged [] d = d
list_programs unchanged ((service_id, pmt_pid) ∷ more) d =
    let listed = record d { programs = list_program service_id pmt_pid d.programs } in
    list_programs unchanged more (if unchanged then listed else rebuild_pat listed service_id)

-- `newByPID`; if services share a PID, the last of them.
abbrev pub by_pid : Dict ℕ → (ℕ → Option ℕ) → ℕ → Option ℕ
by_pid [] found = found
by_pid ((service_id, pmt_pid) ∷ more) found = by_pid more (put found pmt_pid (some service_id))

-- `observePAT` from where the whole table is known.
unfoldable pub accept_pat : Demuxer → Pat → Demuxer
unfolding same_pat list_programs
accept_pat d combined =
    let unchanged = same_pat d.pat combined in
    let listed : Demuxer = list_programs unchanged combined.programs (record d {
      pat = some combined;
      pat_generation = if unchanged then d.pat_generation else d.pat_generation + 1;
    }) in
    let in_table = λ (service_id : ℕ). is_some (lookup service_id combined.programs) in
    let by = by_pid combined.programs (λ p. none) in
    record listed {
      programs = keep_keys in_table listed.programs;
      services = λ service_id.
          if is_some (lookup service_id listed.programs) && not (in_table service_id)
          then none
          else listed.services service_id;
      assemblers =
          λ p. if is_some (d.pmt_by_pid p) && not (is_some (by p)) then none else d.assemblers p;
      pmt_by_pid = by;
    }

unfoldable pub observe_pat : Demuxer → Section → Demuxer
unfolding add_section ordered combine accept_pat
observe_pat d section =
    let (resets, ready, set) = add_section d.pat_sections section in
    let d' : Demuxer = record d { pat_sections = set; pat = if resets then none else d.pat } in
    elim ready [
      | false ↦ d'
      | true ↦ elim (combine empty_pat (ordered set)) [
        | none ↦ d'
        | some combined ↦ accept_pat d' combined
      ]
    ]

unfoldable pub ca_pid : Descriptor → Option ℕ
ca_pid d = if ltb (length (data_of d)) 4 then none else some (pid_at (data_of d) 2)

-- The PIDs of the CA descriptors among these, and those that were found before.
unfoldable pub ca_pids : List Descriptor → (ℕ → Bool) → ℕ → Bool
unfolding ca_pid
ca_pids [] found = found
ca_pids (d ∷ ds) found =
    ca_pids ds
      (if tag d == 9 then elim (ca_pid d) [ none ↦ found | some p ↦ put found p true ] else found)

unfoldable pub emm_of : List Section → (ℕ → Bool) → ℕ → Bool
unfolding ca_pids parse_descriptors
emm_of [] found = found
emm_of (s ∷ ss) found =
    emm_of ss (ca_pids (parse_descriptors (slice 8 (total_length s - 4) s)) found)

-- The sections come from an assembler, which gives them their whole length, so that the slice of one of
-- 12 bytes is in range.
unfoldable pub observe_cat : Demuxer → Section → Demuxer
unfolding validate_crc add_section ordered emm_of
observe_cat d section =
    let (_, ready, set) = add_section d.cat_sections section in
    if ltb (length section) 12
      || ltb (length section) (total_length section)
      || not (validate_crc section)
    then d
    else if ready
    then record d { cat_sections = set; cat_emm = emm_of (ordered set) (λ p. false) }
    else record d { cat_sections = set }

abbrev pub carries_sections : ℕ → Bool
carries_sections stream_type = stream_type == 0x0c || stream_type == 0x0b || stream_type == 0x0d

unfoldable pub element_pids : List PmtElement → (ℕ → Bool) → ℕ → Bool
unfolding ca_pids
element_pids [] found = found
element_pids (e ∷ es) found =
    element_pids es (ca_pids e.descriptors (put found e.elementary_pid true))

abbrev pub element_section_pids : List PmtElement → (ℕ → Bool) → ℕ → Bool
element_section_pids [] found = found
element_section_pids (e ∷ es) found =
    element_section_pids es
      (if carries_sections e.stream_type then put found e.elementary_pid true else found)

abbrev pub any_section_pid : Dict DemuxProgram → ℕ → Bool
any_section_pid [] p = false
any_section_pid ((_, program) ∷ more) p = program.section_pids p || any_section_pid more p

unfoldable pub rebuild_section_pids : Demuxer → Demuxer
rebuild_section_pids d =
    let section_pids = any_section_pid d.programs in
    record d {
      assemblers = λ p. if d.section_pids p && not (section_pids p) then none else d.assemblers p;
      section_pids = section_pids;
    }

unfoldable pub pmt_pids : Pmt → ℕ → Bool
unfolding element_pids ca_pids
pmt_pids pmt = element_pids pmt.elements (
    ca_pids pmt.descriptors
      (if pmt.pcr_pid == 0x1fff then (λ p. false) else put (λ p. false) pmt.pcr_pid true))

unfoldable pub observe_pmt : Demuxer → ℕ → Section → Demuxer
unfolding parse_pmt pmt_pids rebuild_section_pids
observe_pmt d service_id section = elim (parse_pmt section) [
  | none ↦ d
  | some pmt ↦ elim (lookup service_id d.programs) [
    | none ↦ d
    | some program ↦
        if not (pmt.program_number == service_id)
        then d
        else rebuild_section_pids (record d {
          programs =
              insert service_id
                (record program {
                  pids = pmt_pids pmt;
                  section_pids = element_section_pids pmt.elements (λ p. false);
                })
                d.programs;
        })
  ]
]

-- One section of `FeedWithPID`, by the table that it belongs to.
unfoldable pub observe : Demuxer → ℕ → Section → Demuxer
unfolding observe_pat observe_cat observe_pmt
observe d p section =
    if table_id section == 0
    then if p == 0 then observe_pat d section else d
    else if table_id section == 1
    then if p == 1 then observe_cat d section else d
    else if table_id section == 2
    then elim (d.pmt_by_pid p) [ none ↦ d | some service_id ↦ observe_pmt d service_id section ]
    else d

unfoldable pub observe_all : Demuxer → ℕ → List Section → Demuxer
unfolding observe
observe_all d p [] = d
observe_all d p (section ∷ sections) = observe_all (observe d p section) p sections

-- `FeedWithPID`: the sections of the packet, all with its PID, and the state. No call fails.
unfoldable pub feed_with_pid : Demuxer → Packet → List Section × Demuxer
unfolding should_assemble feed_all observe_all
feed_with_pid d packet =
    let p = pid packet in
    let assembler : SectionAssembler = elim (d.assemblers p) [
      | none ↦ new_section_assembler p
      | some assembler ↦ assembler
    ] in
    let (sections, assembler') = feed_all assembler packet in
    if not (is_usable packet) || not (should_assemble d p) then ([], d) else (
      sections,
      observe_all (record d { assemblers = put d.assemblers p (some assembler') }) p sections,
    )
