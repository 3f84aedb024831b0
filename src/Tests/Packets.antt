-- ===== src/Tests/Packets.antt =====
-- ts/section.go, run.
use mahiron.Prelude.{◌≡◌, refl, true, false, [], ◌∷◌, ◌++◌, replicate}
use mahiron.Ts.{
  Packet, pid, has_payload, payload, transport_error_indicator, payload_unit_start_indicator,
  continuity_counter,
}
use mahiron.Ts.Sections.{
  Section, SectionAssembler, new_section_assembler, validate_crc, feed_payload, feed_all,
}
use mahiron.Ts.Sections.Whole.{AllWhole, feed_all-AllWhole}
use mahiron.Ts.Sections.Joined.{AllSound, joined, feed_payload-joined}

abbrev section : Section
section = 112 ∷ 112 ∷ 5 ∷ 170 ∷ 18 ∷ 198 ∷ 63 ∷ 129 ∷ []

section-is_valid : validate_crc section ≡ true
unfolding validate_crc
section-is_valid = refl

two_sections-AllSound : AllSound (section ∷ section ∷ [])
unfolding validate_crc
two_sections-AllSound = (((refl, refl), refl), (((refl, refl), refl), tt))

abbrev assembler : SectionAssembler
assembler = record (new_section_assembler 0x14) {
  buffer = 0x70 ∷ 0x70 ∷ [];
  last_counter = 3;
  expecting = true;
}

feed_payload-joined_example :
    feed_payload assembler true 4 (0 ∷ joined (section ∷ section ∷ []) (0xff ∷ 0xff ∷ 0xff ∷ []))
    ≡ (
      section ∷ section ∷ [],
      record assembler { buffer = []; expecting = false; last_counter = 4 },
    )
feed_payload-joined_example =
    feed_payload-joined assembler 4 (section ∷ section ∷ []) (0xff ∷ 0xff ∷ 0xff ∷ [])
      two_sections-AllSound refl

-- A section in two packets: the second one brings the rest.
in_two_packets :
    feed_payload
      (feed_payload (new_section_assembler 0x14) true 15 (0 ∷ 112 ∷ 112 ∷ 5 ∷ [])).1
      false
      0
      (170 ∷ [])
    ≡ (
      [],
      record (new_section_assembler 0x14) {
        buffer = 112 ∷ 112 ∷ 5 ∷ 170 ∷ [];
        expecting = true;
        last_counter = 0;
      },
    )
unfolding feed_payload
in_two_packets = refl

-- PID 0x14, with a payload that starts a section.
abbrev packet : Packet
packet = 0x47 ∷ 0x40 ∷ 0x14 ∷ 0x15 ∷ 0 ∷ (section ++ replicate 175 0xff)

feed_all-AllWhole_example : AllWhole (feed_all (new_section_assembler 0x14) packet).0
feed_all-AllWhole_example = feed_all-AllWhole (new_section_assembler 0x14) packet

one_section : (feed_all (new_section_assembler 0x14) packet).0 ≡ section ∷ []
unfolding feed_all pid has_payload payload transport_error_indicator payload_unit_start_indicator
    continuity_counter validate_crc
one_section = refl
