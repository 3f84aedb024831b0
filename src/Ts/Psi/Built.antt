-- ===== src/Ts/Psi/Built.antt =====
-- ts/pat.go: the tables that BuildPATSection makes, read by ParsePAT.
use mahiron.Prelude.{false, ltb, ℕ, ◌/◌, ◌%◌, ◌^◌, ◌≤◌, ◌≡◌, refl, true, some, [], ◌∷◌, ◌++◌, arith}
use mahiron.Ts.Sections.{Section, validate_crc, crc32_mpeg2}
use mahiron.Ts.Sections.Whole.{IsWhole}
use mahiron.Ts.Psi.{Pat, pat_bytes, u32_bytes, build_pat_section, parse_pat}
use mahiron.Ts.Psi.Crc.{crc32_mpeg2-append}

module _ (transport_stream_id service_id pmt_pid version : ℕ) where
  abbrev pub pat_section : Section
  pat_section =
      let bytes = pat_bytes transport_stream_id service_id pmt_pid version in
      bytes ++ u32_bytes (crc32_mpeg2 bytes)

  abbrev pub single_program : Pat
  single_program = record {
    transport_stream_id = transport_stream_id;
    version_number = version % 32;
    network_pid = 0;
    programs = (service_id, pmt_pid) ∷ [];
  }

  pub pat_section-IsWhole : IsWhole pat_section
  unfolding validate_crc
  pat_section-IsWhole =
      let bytes = pat_bytes transport_stream_id service_id pmt_pid version in
      (rw (crc32_mpeg2-append bytes) refl, refl)

  parse_pat_of_valid :
      (c₀ c₁ c₂ c₃ : ℕ)
      → (let bytes = pat_bytes transport_stream_id service_id pmt_pid version in
          validate_crc (bytes ++ c₀ ∷ c₁ ∷ c₂ ∷ c₃ ∷ []) ≡ true)
      → 1 ≤ service_id
      → pmt_pid ≤ 0x1fff
      → (let bytes = pat_bytes transport_stream_id service_id pmt_pid version in
          parse_pat (bytes ++ c₀ ∷ c₁ ∷ c₂ ∷ c₃ ∷ []) ≡ some single_program)
  unfolding parse_pat
  parse_pat_of_valid c₀ c₁ c₂ c₃ valid positive pmt = rw valid (ground arith)

  pub parse_pat-pat_section :
      1 ≤ service_id → pmt_pid ≤ 0x1fff → parse_pat pat_section ≡ some single_program
  parse_pat-pat_section positive pmt =
      let crc = crc32_mpeg2 (pat_bytes transport_stream_id service_id pmt_pid version) in
      parse_pat_of_valid (crc / 2 ^ 24 % 256) (crc / 2 ^ 16 % 256) (crc / 2 ^ 8 % 256) (crc % 256)
        pat_section-IsWhole.0 positive pmt

  pub build_pat_section-some :
      pmt_pid ≤ 0x1fff
      → build_pat_section transport_stream_id service_id pmt_pid version ≡ some pat_section
  unfolding build_pat_section
  build_pat_section-some pmt =
      let small : ltb 0x1fff pmt_pid ≡ false = ground arith in rw small refl

  -- A table for a service other than 0, with a PMT PID of 13 bits, is built with a right CRC and read
  -- back with its one program.
  pub parse_pat-build_pat_section :
      1 ≤ service_id
      → pmt_pid ≤ 0x1fff
      → (s : Section) × (build_pat_section transport_stream_id service_id pmt_pid version ≡ some s)
        × IsWhole s
        × (parse_pat s ≡ some single_program)
  parse_pat-build_pat_section positive pmt = (
    pat_section,
    build_pat_section-some pmt,
    pat_section-IsWhole,
    parse_pat-pat_section positive pmt,
  )
