-- ===== src/Ts/Demux/Indexed.antt =====
-- ts/demux.go: the maps of a demultiplexer agree.
use mahiron.Prelude.{
  ℕ, zero, suc, ◌+◌, ◌≡◌, refl, ap, ◌∙◌, Bool, true, false, not, ◌||◌, Option, none, some, List, [],
  ◌∷◌, ◌==◌, ltb, leb, length, ◌-◌, inl, inr, ◌⊎◌, Bool-cases, Option-cases, if◌then◌else◌, arith,
}
use mahiron.Prelude.Maps.{put}
use mahiron.Prelude.Dict.{Dict, lookup, insert, lookup-insert, NodupKeys, insert-NodupKeys}
use mahiron.Ts.Sections.{Section, total_length, validate_crc, SectionAssembler}
use mahiron.Ts.Psi.{Pat, parse_pat, pat_loop, parse_section_header, u16_at, pid_at, table_id}
use mahiron.Ts.Demux.{DemuxProgram, Demuxer, rebuild_pat, should_assemble}
use mahiron.Ts.Demux.Observe.{insert_all, combine, new_program, list_program, list_programs, by_pid}

abbrev pub pmt_of : Option DemuxProgram → Option ℕ
pmt_of none = none
pmt_of (some program) = some program.pmt_pid

-- Only PIDs of interest have an assembler, and it is theirs; the PMT PIDs lead to the services whose
-- programs have them; and while the PAT is known, the programs are those it lists, with their PMT
-- PIDs.
pub record IsIndexed (d : Demuxer) : Type 0 where
  pub assembled :
      (p : ℕ) (a : SectionAssembler)
      → d.assemblers p ≡ some a
      → (a.pid ≡ p) × (should_assemble d p ≡ true)
  pub indexed :
      (p service_id : ℕ)
      → d.pmt_by_pid p ≡ some service_id
      → pmt_of (lookup service_id d.programs) ≡ some p
  pub listed :
      (pat : Pat) (service_id : ℕ)
      → d.pat ≡ some pat
      → pmt_of (lookup service_id d.programs) ≡ lookup service_id pat.programs

pat_loop-NodupKeys :
    (fuel : ℕ) (s : Section) (end off : ℕ) (pat : Pat)
    → NodupKeys pat.programs
    → NodupKeys (pat_loop fuel s end off pat).programs
unfolding pat_loop
pat_loop-NodupKeys zero s end off pat u = u
pat_loop-NodupKeys (suc fuel) s end off pat u = elim (Bool-cases (leb (off + 4) end)) [
  | inr over ↦ rw (over, pat_loop) u
  | inl more ↦ elim (Bool-cases (u16_at s off == 0)) [
    | inl network ↦
        rw (more, network, pat_loop)
          (pat_loop-NodupKeys fuel s end (off + 4) (record pat { network_pid = pid_at s (off + 2) })
            u)
    | inr program ↦
        let programs = insert (u16_at s off) (pid_at s (off + 2)) pat.programs in
        rw (more, program, pat_loop)
          (pat_loop-NodupKeys fuel s end (off + 4) (record pat { programs = programs })
            (insert-NodupKeys (u16_at s off) (pid_at s (off + 2)) pat.programs u))
  ]
]

-- Of a table, if there is one: each program is listed once.
abbrev pub ListsOnce : Option Pat → Type 0
ListsOnce none = Unit {0}
ListsOnce (some pat) = NodupKeys pat.programs

parse_pat-ListsOnce : (s : Section) → ListsOnce (parse_pat s)
unfolding parse_pat
parse_pat-ListsOnce s =
    let invalid =
      ltb (length s) 12
      || not (table_id s == 0)
      || ltb (length s) (total_length s)
      || not (validate_crc s) in
    elim (Bool-cases invalid) [
      | inl bad ↦ rw (bad, parse_pat) tt
      | inr good ↦ elim (Option-cases (parse_section_header s)) [
        | inl short ↦ rw (good, short, parse_pat) tt
        | inr (header, found) ↦
            rw (good, found, parse_pat)
              (pat_loop-NodupKeys (length s) s (total_length s - 4) 8 _ tt)
      ]
    ]

insert_all-NodupKeys : (more a : Dict ℕ) → NodupKeys a → NodupKeys (insert_all a more)
insert_all-NodupKeys [] a u = u
insert_all-NodupKeys ((k, v) ∷ more) a u =
    insert_all-NodupKeys more (insert k v a) (insert-NodupKeys k v a u)

pub combine-ListsOnce :
    (ss : List Section) (start : Pat) → NodupKeys start.programs → ListsOnce (combine start ss)
unfolding combine
combine-ListsOnce [] start u = u
combine-ListsOnce (s ∷ ss) start u = elim (Option-cases (parse_pat s)) [
  | inl invalid ↦ rw (invalid, ListsOnce, combine) tt
  | inr (pat, found) ↦
      rw (found, ListsOnce, combine)
        (combine-ListsOnce ss (record pat { programs = insert_all start.programs pat.programs })
          (insert_all-NodupKeys pat.programs start.programs u))
]

-- The loop over the services touches the programs and the outputs only.
abbrev pub list_all : Dict ℕ → Dict DemuxProgram → Dict DemuxProgram
list_all [] programs = programs
list_all ((service_id, pmt_pid) ∷ more) programs =
    list_all more (list_program service_id pmt_pid programs)

pub rebuild_pat_keeps :
    (d : Demuxer) (service_id : ℕ)
    → rebuild_pat d service_id ≡ record d { services = (rebuild_pat d service_id).services }
unfolding rebuild_pat
rebuild_pat_keeps d service_id = elim (Option-cases d.pat) [
  | inl unknown ↦ ground (arith, unknown)
  | inr (pat, known) ↦ elim (Option-cases (lookup service_id pat.programs)) [
    | inl absent ↦ ground (arith, known, absent)
    | inr (pmt_pid, found) ↦ ground (arith, known, found)
  ]
]

pub list_programs_keeps :
    (unchanged : Bool) (ps : Dict ℕ) (d : Demuxer)
    → list_programs unchanged ps d ≡ record d {
      programs = list_all ps d.programs;
      services = (list_programs unchanged ps d).services;
    }
unfolding list_programs
list_programs_keeps unchanged [] d = refl
list_programs_keeps true ((service_id, pmt_pid) ∷ ps) d =
    list_programs_keeps true ps (record d { programs = list_program service_id pmt_pid d.programs })
list_programs_keeps false ((service_id, pmt_pid) ∷ ps) d =
    let listed : Demuxer = record d { programs = list_program service_id pmt_pid d.programs } in
    let after = list_programs false ps (rebuild_pat listed service_id) in
    list_programs_keeps false ps (rebuild_pat listed service_id)
    ∙ ap
        (λ (x : Demuxer). record x { programs = list_all ps x.programs; services = after.services })
        (rebuild_pat_keeps listed service_id)

lookup-list_program :
    (j k pmt_pid : ℕ) (programs : Dict DemuxProgram)
    → pmt_of (lookup j (list_program k pmt_pid programs))
      ≡ (if j == k then some pmt_pid else pmt_of (lookup j programs))
lookup-list_program j k pmt_pid programs =
    ground (arith, lookup-insert j k (new_program pmt_pid) programs)

pub lookup-list_all :
    (j : ℕ) (ps : Dict ℕ) (programs : Dict DemuxProgram)
    → NodupKeys ps
    → pmt_of (lookup j (list_all ps programs))
      ≡ elim (lookup j ps) [ none ↦ pmt_of (lookup j programs) | some pmt_pid ↦ some pmt_pid ]
lookup-list_all j [] programs u = refl
lookup-list_all j ((k, pmt_pid) ∷ ps) programs (fresh, u) = ground (
  arith,
  lookup-list_all j ps (list_program k pmt_pid programs) u,
  lookup-list_program j k pmt_pid programs,
)

pub by_pid_lem :
    (ps : Dict ℕ) (found : ℕ → Option ℕ) (p service_id : ℕ)
    → NodupKeys ps
    → by_pid ps found p ≡ some service_id
    → (lookup service_id ps ≡ some p) ⊎ (found p ≡ some service_id)
by_pid_lem [] found p service_id u h = inr h
by_pid_lem ((k, pmt_pid) ∷ ps) found p service_id (fresh, u) h =
    elim (by_pid_lem ps (put found pmt_pid (some k)) p service_id u h) [
      | inl later ↦ inl (ground (arith, later, fresh))
      | inr now ↦ elim (Bool-cases (pmt_pid == p)) [
        | inl here ↦ inl (ground (arith, now, here))
        | inr before ↦ inr (ground (arith, now, before))
      ]
    ]
