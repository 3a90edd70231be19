-- ===== src/Tests/Packets.antt =====
-- source/data_packet.hpp at concrete packets.
use f1985gfw.Base.{
  ℕ, ◌+◌, ◌<◌, ◌≡◌, ◌⊎◌, refl, none, some, List, [], ◌∷◌, length, take, replicate, arith, ok, frame,
}
use f1985gfw.Packet.{Packet, IsValid, put, write_data, grown_size, pack}
use f1985gfw.Packet.Append.{Appended, put_lem}
use f1985gfw.Packet.Write.{write_data_lem}
use f1985gfw.Packet.Pack.{pack-frame}
use f1985gfw.Tests.Memory.{plain, plain-IsAmple, barren}

abbrev two_bytes : List ℕ
two_bytes = 1 ∷ 2 ∷ []

abbrev nearly_full : Packet
nearly_full = record { mem = replicate 4 9; capacity = 4; offset = 3 }

nearly_full-IsValid : IsValid nearly_full
nearly_full-IsValid = record { block = refl; within = omega arith }

pack-frame_example : pack plain 258 (7 ∷ 8 ∷ 9 ∷ []) 2 ≡ ok (frame 258 (7 ∷ 8 ∷ []))
pack-frame_example =
    pack-frame plain plain-IsAmple 258 (7 ∷ 8 ∷ 9 ∷ []) 2 (omega arith) (omega arith)

put_lem_example :
    ((put plain nearly_full two_bytes ≡ ok nearly_full)
      × (nearly_full.capacity < nearly_full.offset + length two_bytes)
      × (plain.realloc nearly_full.mem
            (grown_size plain nearly_full (nearly_full.offset + length two_bytes))
          ≡ none))
    ⊎ ((q : Packet) × (put plain nearly_full two_bytes ≡ ok q) × Appended nearly_full two_bytes q)
put_lem_example = put_lem plain nearly_full nearly_full-IsValid two_bytes (omega arith)

write_data_lem_example :
    ((write_data barren nearly_full (some two_bytes) 2 ≡ ok (nearly_full, none))
      × (nearly_full.capacity < nearly_full.offset + 2)
      × (barren.realloc nearly_full.mem (grown_size barren nearly_full (nearly_full.offset + 2))
          ≡ none))
    ⊎ ((q : Packet) × (write_data barren nearly_full (some two_bytes) 2
          ≡ ok (q, some nearly_full.offset))
        × Appended nearly_full (take 2 two_bytes) q)
write_data_lem_example =
    write_data_lem barren nearly_full nearly_full-IsValid two_bytes 2 (omega arith) (omega arith)
